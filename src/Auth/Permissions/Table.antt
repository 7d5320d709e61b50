-- ===== src/Auth/Permissions/Table.antt =====
-- The whole table of app/backend/src/services/routePermissions.js, and the decision on a request.
pub mod Overlap
pub mod Unambiguous
pub mod Viewer
use red_man.Common.{
  String, Bool, true, false, ◌||◌, Option, none, some, List, [], ◌∷◌, ◌++◌, if◌then◌else◌, ◌===◌,
  String-Comparable,
}
use red_man.Common.Dict
use red_man.Auth.Permissions.{
  Policy, Permission, anyone, read, account_self, find_permission, normalized_path, Role, admin,
  viewer, Decision, passed, no_policy, insufficient,
}
use red_man.Auth.Permissions.Backups.{auth_policies, backup_policies}
use red_man.Auth.Permissions.Services.{service_policies}

-- `API_ROUTE_POLICIES`
abbrev pub api_route_policies : List Policy
api_route_policies = auth_policies ++ (backup_policies ++ service_policies)

unfoldable pub get_route_permission : String → List String → Option Permission
unfolding find_permission
get_route_permission method path = find_permission api_route_policies method (normalized_path path)

abbrev pub role_allows : Option Role → Permission → Bool
role_allows none permission = false
role_allows (some admin) permission = true
role_allows (some viewer) permission = Dict.has (read ∷ account_self ∷ []) permission

unfoldable pub authorize_api_route : Option Role → String → List String → Decision
unfolding get_route_permission
authorize_api_route role method path = elim (get_route_permission method path) [
  | none ↦ no_policy
  | some permission ↦
      if permission === anyone || role_allows role permission then passed else insufficient
]
