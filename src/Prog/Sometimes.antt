-- ===== src/Prog/Sometimes.antt =====
-- What a program does on some run: `Sometimes p d Q` says that from database `d` there are replies
-- of the interface with which `p` comes to a value or an early return, and a database, that satisfy
-- `Q`.
use zerohttp_example.Store.{Reply}
use zerohttp_example.Store.Spec.{Db, Spec}
use zerohttp_example.Prog.{Prog, ret, stop, call, ◌>>=◌, Flow, ran, stopped}
use zerohttp_example.Prog.Always.{Always}

abbrev pub Sometimes : {A : Type 0} → Prog A → Db → (Flow A → Db → Type 0) → Type 0
Sometimes (ret a) d Q = Q (ran a) d
Sometimes (stop o) d Q = Q (stopped o) d
Sometimes (call c k) d Q = (r : Reply c) × (m : Db) × Spec c d r m × Sometimes (k r) m Q

abbrev pub Leads : {A B : Type 0} → (A → Prog B) → (Flow B → Db → Type 0) → Flow A → Db → Type 0
Leads f Q (ran a) d = Sometimes (f a) d Q
Leads f Q (stopped o) d = Q (stopped o) d

-- A sequence is shown by what its first part leaves, `P`.
pub sometimes_seq :
    {A B : Type 0} (p : Prog A) (f : A → Prog B) (d : Db) (P : Flow A → Db → Type 0)
    (Q : Flow B → Db → Type 0)
    → Sometimes p d P
    → ((v : Flow A) (e : Db) → P v e → Leads f Q v e)
    → Sometimes (p >>= f) d Q
sometimes_seq (ret a) f d P Q h w = w (ran a) d h
sometimes_seq (stop o) f d P Q h w = w (stopped o) d h
sometimes_seq (call c k) f d P Q (r, m, s, h) w = (r, m, s, sometimes_seq (k r) f m P Q h w)

-- What holds at the end of every run holds at the end of this one.
pub always-sometimes :
    {A : Type 0} (p : Prog A) (d : Db) (P Q : Flow A → Db → Type 0)
    → Always p d P
    → Sometimes p d Q
    → Sometimes p d (λ v e. P v e × Q v e)
always-sometimes (ret a) d P Q h k = (h, k)
always-sometimes (stop o) d P Q h k = (h, k)
always-sometimes (call c f) d P Q h (r, m, s, k) =
    (r, m, s, always-sometimes (f r) m P Q (h r m s) k)
