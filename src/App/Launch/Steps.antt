-- ===== src/App/Launch/Steps.antt =====
-- Rules for the steps of the start-up (app/app.go, app/server.go).
use zerohttp_example.Base.{
  String, ◌≡◌, refl, Bool, true, false, if◌then◌else◌, Option, none, some, Result, ok, err,
}
use zerohttp_example.App.Setup.{Launch, launched, refused, fatal, launch_then, or_fatal}

abbrev pub IsErr : {A : Type 0} → Result A → Type 0
IsErr (ok a) = ⊥
IsErr (err e) = Unit {0}

-- If the step has been made, its value and the state after it satisfy `P`; if it has not, `F` holds
-- of the line that the process ends with, or of `none` if an error goes to the caller.
abbrev pub Launched :
    {A W : Type 0} → (Option String → Type 0) → (A → W → Type 0) → Launch A × W → Type 0
Launched F P (launched a, w) = P a w
Launched F P (refused e, w) = F none
Launched F P (fatal e, w) = F (some e)

module _ (F : Option String → Type 0) where
  pub launch_then-Launched :
      {A B W : Type 0} (P : A → W → Type 0) (Q : B → W → Type 0) (x : Launch A × W)
      (k : A → W → Launch B × W)
      → Launched F P x
      → ((a : A) (w : W) → P a w → Launched F Q (k a w))
      → Launched F Q (launch_then x k)
  launch_then-Launched P Q (launched a, w) k h f = f a w h
  launch_then-Launched P Q (refused e, w) k h f = h
  launch_then-Launched P Q (fatal e, w) k h f = h

  -- A step that leaves the first state alone.
  pub Launched-beside :
      {A S R : Type 0} (P : A → R → Type 0) (Q : A → S × R → Type 0) (x : Launch A × R) (s : S)
      → ((a : A) (r : R) → P a r → Q a (s, r))
      → Launched F P x
      → Launched F Q (x.0, (s, x.1))
  Launched-beside P Q (launched a, r) s f h = f a r h
  Launched-beside P Q (refused e, r) s f h = h
  Launched-beside P Q (fatal e, r) s f h = h

  pub or_fatal-Launched :
      {A W : Type 0} (P : A → W → Type 0) (what : String) (x : Result A × W)
      → ((a : A) → x.0 ≡ ok a → P a x.1)
      → (IsErr x.0 → F (some what))
      → Launched F P (or_fatal what x)
  or_fatal-Launched P what (ok a, w) h f = h a refl
  or_fatal-Launched P what (err e, w) h f = f tt

  pub if-Launched :
      {A W : Type 0} (P : A → W → Type 0) (b : Bool) (x y : Launch A × W)
      → (b ≡ true → Launched F P x)
      → (b ≡ false → Launched F P y)
      → Launched F P (if b then x else y)
  if-Launched P true x y h k = h refl
  if-Launched P false x y h k = k refl

  -- A call that is made for its effect only.
  pub call-Launched :
      {B W : Type 0} (Q : B → W → Type 0) (what : String) (x : Result (Unit {0}) × W) (b : B)
      → (x.0 ≡ ok tt → Q b x.1)
      → (IsErr x.0 → F (some what))
      → Launched F Q (launch_then (or_fatal what x) (λ _ w. (launched b, w)))
  call-Launched Q what (ok _, w) b h f = h refl
  call-Launched Q what (err e, w) b h f = f tt
