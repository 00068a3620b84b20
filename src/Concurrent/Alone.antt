-- ===== src/Concurrent/Alone.antt =====
-- A handler that keeps to its duties, with nothing else running: the records stay well-formed.
use zerohttp_example.Base.{String, ◌≡◌, none}
use zerohttp_example.Base.Int.{ℤ, pos, ◌≤ℤ◌}
use zerohttp_example.Store.Spec.{Db}
use zerohttp_example.Prog.{Prog, ret, stop, call}
use zerohttp_example.Prog.Always.{Always, always_mono}
use zerohttp_example.Handlers.Order.Stock.{IsKeyed}
use zerohttp_example.Concurrent.Duties.{Holds}
use zerohttp_example.Concurrent.Balance.{IsStocked, advance}

-- No record has been removed.
abbrev pub IsKept : Db → Db → Type 0
IsKept d e = (i : String) → e.records i ≡ none → d.records i ≡ none

-- A handler that never puts more into orders than it has taken leaves no stock below zero and removes
-- no record.
pub Holds-IsStocked :
    {A : Type 0} (j : String) (n : ℤ) (p : Prog A) (Q : A → ℤ → Type 0) (d : Db)
    → pos 0 ≤ℤ n
    → IsKeyed d
    → IsStocked d
    → Holds j n p Q
    → Always p d (λ _ e. IsKeyed e × IsStocked e × IsKept d e)
Holds-IsStocked j n (ret a) Q d z k s h = (k, s, λ i a. a)
Holds-IsStocked j n (stop o) Q d z k s h = (k, s, λ i a. a)
Holds-IsStocked j n (call c f) Q d z k s h = λ r m a.
    let (left, rest, b) = advance j d n z k s c r m (λ x l. Holds j l (f x) Q) a h in
    always_mono (f r) m _ _ (λ _ e g. (g.0, g.1, λ i x. b.kept i (g.2 i x)))
      (Holds-IsStocked j left (f r) Q m b.in_hand b.keyed b.stocked rest)
