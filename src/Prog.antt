-- ===== src/Prog.antt =====
-- A handler as a program: its calls to the store and the environment one by one, each followed by
-- what the handler does with the reply. `stop` is an early `return`.
pub mod Always
pub mod Sometimes
pub mod Succeeds
pub mod Run
use zerohttp_example.Base.{ℕ, String, Bool, true, false, Option, none, some, Result, ok, err}
use zerohttp_example.Http.{Outcome, failed, problem, panicked}
use zerohttp_example.Store.{Call, Reply}

pub data Prog (A : Type 0) : Type 0 where
  ret : A → Prog A
  stop : Outcome → Prog A
  call : (c : Call) → (Reply c → Prog A) → Prog A

infixl 5 ◌>>=◌ ◌>>◌
abbrev pub ◌>>=◌ : {A B : Type 0} → Prog A → (A → Prog B) → Prog B
ret a >>= f = f a
stop o >>= f = stop o
call c k >>= f = call c (λ r. k r >>= f)

abbrev pub ◌>>◌ : {B : Type 0} → Prog (Unit {0}) → Prog B → Prog B
m >> k = m >>= λ _. k

-- One call.
abbrev pub ask : (c : Call) → Prog (Reply c)
ask c = call c ret

-- `if err != nil { return err }`.
abbrev pub try : {A : Type 0} → Result A → Prog A
try (ok a) = ret a
try (err e) = stop (failed e)

-- `if !ok { return ProblemDetail(status, detail) }`.
abbrev pub found : {A : Type 0} → Option A → ℕ → String → Prog A
found (some a) status detail = ret a
found none status detail = stop (problem status detail)

-- `if err != nil { return ProblemDetail(status, detail) }`.
abbrev pub or_problem : {A : Type 0} → Result A → ℕ → String → Prog A
or_problem (ok a) status detail = ret a
or_problem (err e) status detail = stop (problem status detail)

-- `if refused { return ProblemDetail(status, detail) }`.
abbrev pub refuse_if : Bool → ℕ → String → Prog (Unit {0})
refuse_if true status detail = stop (problem status detail)
refuse_if false status detail = ret tt

-- `if err != nil { panic(text) }`.
abbrev pub or_panic : {A : Type 0} → Result A → String → Prog A
or_panic (ok a) text = ret a
or_panic (err e) text = stop (panicked text)

-- What a program comes to: its value, or the outcome of an early return.
pub data Flow (A : Type 0) : Type 0 where
  ran : A → Flow A
  stopped : Outcome → Flow A
