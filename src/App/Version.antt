-- ===== src/App/Version.antt =====
-- `apiVersionFunc` (app/server.go), with `strings.TrimPrefix` and `strings.Cut`.
use Prim.Native.String.{String, [], ◌∷◌, ◌++◌, len, count, slice}
use Prim.Native.Char.{Char, code}
use text.Mathlib.Text.{starts_with}
use text.Mathlib.TextPositions.{starts_with-append, slice-append_right, len-append}
use text.Mathlib.TextLemmas.{length-append, nil-append, cons-append}
use zerohttp_example.Base.{
  Bool, true, false, Bool-cases, if◌then◌else◌, ◌==◌, leb, ◌&&◌, ◌≡◌, refl, ap, inl, inr, arith,
  eq_iff,
}

abbrev pub default_media_type : String
default_media_type = "application/vnd.vinylstore.v1+json"

-- `strings.TrimPrefix`.
unfoldable pub trim_prefix : String → String → String
trim_prefix s p = if starts_with s p then slice s (len p) (len s) else s

abbrev is_plus : Char → Bool
is_plus c = leb (code c) 43 && leb 43 (code c)

-- What comes before the first plus sign, all if there is none: `strings.Cut(s, "+")`.
abbrev pub before_plus : String → String
before_plus [] = []
before_plus (c ∷ s) = let rest = before_plus s in if is_plus c then [] else c ∷ rest

unfoldable pub version_of : String → String
unfolding trim_prefix
version_of media_type =
    let s = trim_prefix media_type "application/vnd." in
    if s == media_type then media_type else before_plus s

unfoldable pub api_version_func : String → String
unfolding version_of
api_version_func media_type =
    version_of (if media_type == "application/json" then default_media_type else media_type)

-- No character of it is a plus sign.
abbrev pub HasNoPlus : String → Type 0
HasNoPlus [] = Unit {0}
HasNoPlus (c ∷ s) = (is_plus c ≡ false) × HasNoPlus s

before_plus-append : (v s : String) → HasNoPlus v → before_plus (v ++ ("+" ++ s)) ≡ v
before_plus-append [] s h = rw (nil-append ("+" ++ s), cons-append "+" [] s) refl
before_plus-append (c ∷ v) s h =
    rw (cons-append c v ("+" ++ s), h.0) (ap (λ t. c ∷ t) (before_plus-append v s h.1))

trim_prefix-append : (p s : String) → trim_prefix (p ++ s) p ≡ s
unfolding trim_prefix
trim_prefix-append p s = rw (starts_with-append p s, len-append p s) (slice-append_right p s)

is_vendor : (s : String) → ("application/vnd." ++ s == "application/json") ≡ false
is_vendor s = elim (Bool-cases ("application/vnd." ++ s == "application/json")) [
  | inl e ↦
      let same = (eq_iff ("application/vnd." ++ s) "application/json").0 e in
      let prefix : starts_with "application/json" "application/vnd." ≡ true =
        rw same at (starts_with-append "application/vnd." s) in
      absurd (cc prefix)
  | inr e ↦ e
]

is_shorter : (s : String) → (s == "application/vnd." ++ s) ≡ false
is_shorter s = elim (Bool-cases (s == "application/vnd." ++ s)) [
  | inl e ↦ absurd (
      omega (
        arith,
        ap count ((eq_iff s ("application/vnd." ++ s)).0 e),
        length-append "application/vnd." s,
      ))
  | inr e ↦ e
]

-- The version header names the version of a vendor media type: of `application/vnd.V+S` it is V, if
-- V has no plus sign, whatever the suffix S.
pub api_version_func-append :
    (v s : String) → HasNoPlus v → api_version_func ("application/vnd." ++ (v ++ ("+" ++ s))) ≡ v
unfolding api_version_func version_of
api_version_func-append v s h =
    let rest = v ++ ("+" ++ s) in
    rw (is_vendor rest, trim_prefix-append "application/vnd." rest, is_shorter rest)
      (before_plus-append v s h)
