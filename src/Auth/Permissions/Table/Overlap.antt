-- ===== src/Auth/Permissions/Table/Overlap.antt =====
-- Which entries of the table can match the same request.
use red_man.Common.{
  ◌≡◌, refl, inl, inr, String, Bool, true, false, ◌&&◌, not, List, [], ◌∷◌, any, arith, ◌===◌,
  String-Comparable, eq_cases,
}
use text.Mathlib.TextEquality.{eq_iff}
use red_man.Common.Dict
use red_man.Common.Text.{codes, is_number}
use red_man.Auth.Permissions.{Piece, word, words, digits, segment, fits, fits_path}

-- Some text may fit both pieces.
abbrev pub compatible : Piece → Piece → Bool
compatible (word v) q = fits q v
compatible (words vs) q = any (λ v. fits q v) vs
compatible digits (word w) = is_number (codes w)
compatible digits (words ws) = any (λ w. is_number (codes w)) ws
compatible digits digits = true
compatible digits segment = true
compatible segment (word w) = not (w === "")
compatible segment (words ws) = any (λ w. not (w === "")) ws
compatible segment digits = true
compatible segment segment = true

pub any-has :
    (p : String → Bool) (vs : List String) (s : String)
    → Dict.has vs s ≡ true
    → p s ≡ true
    → any p vs ≡ true
any-has p [] s h g = h
any-has p (v ∷ vs) s h g = elim (eq_cases v s) [
  | inl same ↦ rw (same, g) refl
  | inr other ↦ ground (arith, eq_iff v s, any-has p vs s)
]

compatible_lem :
    (p q : Piece) (s : String) → fits p s ≡ true → fits q s ≡ true → compatible p q ≡ true
unfolding fits
compatible_lem (word v) q s h g = rw ((eq_iff v s).0 h) g
compatible_lem (words vs) q s h g = any-has (fits q) vs s h g
compatible_lem digits (word w) s h g = rw ((eq_iff w s).0 g) h
compatible_lem digits (words ws) s h g = any-has (λ w. is_number (codes w)) ws s g h
compatible_lem digits digits s h g = refl
compatible_lem digits segment s h g = refl
compatible_lem segment (word w) s h g = rw ((eq_iff w s).0 g) h
compatible_lem segment (words ws) s h g = any-has (λ w. not (w === "")) ws s g h
compatible_lem segment digits s h g = refl
compatible_lem segment segment s h g = refl

-- Some path may fit both lists of pieces, with their flags for a trailing slash.
abbrev pub overlap : Bool → List Piece → Bool → List Piece → Bool
overlap slash [] slash' [] = true
overlap slash [] slash' (q ∷ []) = slash && fits q ""
overlap slash [] slash' (q ∷ r ∷ qs) = false
overlap slash (p ∷ []) slash' [] = slash' && fits p ""
overlap slash (p ∷ r ∷ ps) slash' [] = false
overlap slash (p ∷ ps) slash' (q ∷ qs) = compatible p q && overlap slash ps slash' qs

pub and_inv : (a b : Bool) → (a && b) ≡ true → (a ≡ true) × (b ≡ true)
and_inv a b h = ground arith

and_intro : (a b : Bool) → a ≡ true → b ≡ true → (a && b) ≡ true
and_intro a b h g = ground arith

pub overlap_lem :
    (slash : Bool) (ps : List Piece) (slash' : Bool) (qs : List Piece) (path : List String)
    → fits_path slash ps path ≡ true
    → fits_path slash' qs path ≡ true
    → overlap slash ps slash' qs ≡ true
unfolding fits_path
overlap_lem slash [] slash' [] path h g = refl
overlap_lem slash [] slash' (q ∷ []) [] h g = cc
overlap_lem slash [] slash' (q ∷ []) (s ∷ []) h g =
    let (a, b) = and_inv slash (s === "") h in
    and_intro slash (fits q "") a (rw ((eq_iff s "").0 b) at ((and_inv (fits q s) true g).0))
overlap_lem slash [] slash' (q ∷ r ∷ qs) [] h g = cc
overlap_lem slash [] slash' (q ∷ r ∷ qs) (s ∷ []) h g = ground arith
overlap_lem slash [] slash' (q ∷ qs) (s ∷ t ∷ path) h g = cc
overlap_lem slash (p ∷ []) slash' [] [] h g = cc
overlap_lem slash (p ∷ []) slash' [] (s ∷ []) h g =
    let (a, b) = and_inv slash' (s === "") g in
    and_intro slash' (fits p "") a (rw ((eq_iff s "").0 b) at ((and_inv (fits p s) true h).0))
overlap_lem slash (p ∷ r ∷ ps) slash' [] [] h g = cc
overlap_lem slash (p ∷ r ∷ ps) slash' [] (s ∷ []) h g = ground arith
overlap_lem slash (p ∷ ps) slash' [] (s ∷ t ∷ path) h g = cc
overlap_lem slash (p ∷ ps) slash' (q ∷ qs) [] h g = cc
overlap_lem slash (p ∷ ps) slash' (q ∷ qs) (s ∷ path) h g =
    let (a, b) = and_inv (fits p s) (fits_path slash ps path) h in
    let (c, d) = and_inv (fits q s) (fits_path slash' qs path) g in
    and_intro (compatible p q) (overlap slash ps slash' qs) (compatible_lem p q s a c)
      (overlap_lem slash ps slash' qs path b d)
