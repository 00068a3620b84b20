-- ===== src/Prog/Run.antt =====
-- A program run to its end by a server that answers each call and has a state.
use zerohttp_example.Base.{ℕ, String, Bool, true, false, Option, none, some, Result, ok, err}
use zerohttp_example.Store.{Call, Reply}
use zerohttp_example.Store.Spec.{Db, Spec}
use zerohttp_example.Prog.{Prog, ret, stop, call, ◌>>=◌, try, found, refuse_if, Flow, ran, stopped}
use zerohttp_example.Prog.Always.{Always}

abbrev pub Server : Type 0 → Type 0
Server W = (c : Call) → W → Reply c × W

abbrev pub run : {A W : Type 0} → Server W → Prog A → W → Flow A × W
run s (ret a) w = (ran a, w)
run s (stop o) w = (stopped o, w)
run s (call c k) w = let answer = s c w in run s (k answer.0) answer.1

-- Every call that the program can come to satisfies `Can`.
abbrev pub Calls : {A : Type 0} → (Call → Type 0) → Prog A → Type 0
Calls Can (ret a) = Unit {0}
Calls Can (stop o) = Unit {0}
Calls Can (call c k) = Can c × ((r : Reply c) → Calls Can (k r))

-- A server that keeps to the interface and to an invariant, for calls that satisfy `Can`.
abbrev pub Keeps : {W : Type 0} → Server W → (W → Db) → (Db → Type 0) → (Call → Type 0) → Type 0
Keeps {W = W} s view Inv Can =
    (c : Call) (w : W)
    → Inv (view w)
    → Can c
    → Spec c (view w) (s c w).0 (view (s c w).1) × Inv (view (s c w).1)

-- What holds at the end of every run holds at the end of this one.
pub run-Always :
    {A W : Type 0} (s : Server W) (view : W → Db) (Inv : Db → Type 0) (Can : Call → Type 0)
    (p : Prog A) (w : W) (Q : Flow A → Db → Type 0)
    → Keeps s view Inv Can
    → Inv (view w)
    → Calls Can p
    → Always p (view w) Q
    → Q (run s p w).0 (view (run s p w).1)
run-Always s view Inv Can (ret a) w Q keeps i c h = h
run-Always s view Inv Can (stop o) w Q keeps i c h = h
run-Always s view Inv Can (call c k) w Q keeps i (can, rest) h =
    let (allowed, next) = keeps c w i can in
    let answer = s c w in
    run-Always s view Inv Can (k answer.0) answer.1 Q keeps next (rest answer.0)
      (h answer.0 (view answer.1) allowed)

module _ (Can : Call → Type 0) where
  pub Calls-bind :
      {A B : Type 0} (p : Prog A) (f : A → Prog B)
      → Calls Can p
      → ((a : A) → Calls Can (f a))
      → Calls Can (p >>= f)
  Calls-bind (ret a) f h k = k a
  Calls-bind (stop o) f h k = tt
  Calls-bind (call c g) f h k = (h.0, λ r. Calls-bind (g r) f (h.1 r) k)

  pub Calls-try : {A : Type 0} (r : Result A) → Calls Can (try r)
  Calls-try (ok a) = tt
  Calls-try (err e) = tt

  pub Calls-found : {A : Type 0} (o : Option A) (n : ℕ) (s : String) → Calls Can (found o n s)
  Calls-found none n s = tt
  Calls-found (some a) n s = tt

  pub Calls-refuse_if : (b : Bool) (n : ℕ) (s : String) → Calls Can (refuse_if b n s)
  Calls-refuse_if true n s = tt
  Calls-refuse_if false n s = tt
