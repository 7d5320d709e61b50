-- ===== src/Auth/Permissions.antt =====
-- app/backend/src/services/routePermissions.js: which requests need which permission, and who is
-- let through. A path is the list of its segments behind the leading slash, so that the path with
-- a trailing slash ends in an empty segment; a regular expression of the table is a choice of
-- lists of pieces, with a flag for its optional trailing slash. A method is in upper case.
pub mod Backups
pub mod Services
pub mod Table
use red_man.Common.{
  String, Bool, true, false, ◌&&◌, ◌||◌, not, Option, none, some, List, [], ◌∷◌, ◌++◌, any, ◌===◌,
  if◌then◌else◌, String-Comparable,
}
use red_man.Common.Dict
use red_man.Common.Text.{codes, is_number}

-- A part of an expression between slashes: a word, one of several, `\d+`, or `[^/]+`.
pub data Piece : Type 0 where
  word : String → Piece
  words : List String → Piece
  digits segment : Piece

abbrev pub get : String
get = "GET"

abbrev pub post : String
post = "POST"

abbrev pub put : String
put = "PUT"

abbrev pub delete : String
delete = "DELETE"

abbrev pub Permission : Type 0
Permission = String

abbrev pub anyone : Permission
anyone = "public"

abbrev pub read : Permission
read = "read"

abbrev pub account_self : Permission
account_self = "account:self"

abbrev pub operate : Permission
operate = "operate"

abbrev pub restore : Permission
restore = "restore"

abbrev pub docker_mutate : Permission
docker_mutate = "docker:mutate"

abbrev pub settings : Permission
settings = "settings"

abbrev pub secrets : Permission
secrets = "secrets"

abbrev pub peers : Permission
peers = "peers"

abbrev pub discovery : Permission
discovery = "discovery"

abbrev pub accounts : Permission
accounts = "accounts"

pub data Policy : Type 0 where
  policy :
      (methods : List String) (trailing_slash : Bool) (patterns : List (List Piece))
      → Permission
      → Policy

unfoldable pub fits : Piece → String → Bool
fits (word w) s = w === s
fits (words ws) s = Dict.has ws s
fits digits s = is_number (codes s)
fits segment s = not (s === "")

unfoldable pub fits_path : Bool → List Piece → List String → Bool
unfolding fits
fits_path slash [] [] = true
fits_path slash [] (s ∷ []) = slash && s === ""
fits_path slash [] (s ∷ t ∷ path) = false
fits_path slash (p ∷ pieces) [] = false
fits_path slash (p ∷ pieces) (s ∷ path) = fits p s && fits_path slash pieces path

-- `entry.methods.has(method) && entry.pattern.test(path)`
unfoldable pub permits : Policy → String → List String → Bool
unfolding fits_path
permits (policy methods slash patterns permission) method path =
    Dict.has methods method && any (λ p. fits_path slash p path) patterns

abbrev pub permission_of : Policy → Permission
permission_of (policy methods slash patterns permission) = permission

-- `find`
unfoldable pub find_permission : List Policy → String → List String → Option Permission
unfolding permits
find_permission [] method path = none
find_permission (e ∷ table) method path =
    if permits e method path then some (permission_of e) else find_permission table method path

-- The path without a leading `/api`, when more follows.
abbrev pub normalized_path : List String → List String
normalized_path [] = []
normalized_path (s ∷ []) = s ∷ []
normalized_path (s ∷ t ∷ path) = if s === "api" then t ∷ path else s ∷ t ∷ path

pub data Role : Type 0 where
  admin viewer : Role

pub data Decision : Type 0 where
  passed no_policy insufficient : Decision
