-- ===== src/Prog/Always.antt =====
-- What a program does on every run: `Always p d Q` says that from database `d`, whatever the
-- interface's replies, `p` comes to a value or an early return, and a database, that satisfy `Q`.
use zerohttp_example.Http.{Outcome}
use zerohttp_example.Store.{Reply}
use zerohttp_example.Store.Spec.{Db, Spec}
use zerohttp_example.Prog.{Prog, ret, stop, call, ◌>>=◌, Flow, ran, stopped}

abbrev pub Always : {A : Type 0} → Prog A → Db → (Flow A → Db → Type 0) → Type 0
Always (ret a) d Q = Q (ran a) d
Always (stop o) d Q = Q (stopped o) d
Always (call c k) d Q = (r : Reply c) (m : Db) → Spec c d r m → Always (k r) m Q

abbrev pub outcome : Flow Outcome → Outcome
outcome (ran o) = o
outcome (stopped o) = o

-- Of a handler only the outcome matters.
abbrev pub Ensures : Prog Outcome → Db → (Outcome → Db → Type 0) → Type 0
Ensures p d Q = Always p d (λ f. Q (outcome f))

abbrev pub Then : {A B : Type 0} → (A → Prog B) → (Flow B → Db → Type 0) → Flow A → Db → Type 0
Then f Q (ran a) d = Always (f a) d Q
Then f Q (stopped o) d = Q (stopped o) d

-- A sequence is shown by its first part.
pub always_bind :
    {A B : Type 0} (p : Prog A) (f : A → Prog B) (d : Db) (Q : Flow B → Db → Type 0)
    → Always p d (Then f Q)
    → Always (p >>= f) d Q
always_bind (ret a) f d Q h = h
always_bind (stop o) f d Q h = h
always_bind (call c k) f d Q h = λ r m s. always_bind (k r) f m Q (h r m s)

pub always_mono :
    {A : Type 0} (p : Prog A) (d : Db) (Q R : Flow A → Db → Type 0)
    → ((f : Flow A) (e : Db) → Q f e → R f e)
    → Always p d Q
    → Always p d R
always_mono (ret a) d Q R w h = w (ran a) d h
always_mono (stop o) d Q R w h = w (stopped o) d h
always_mono (call c k) d Q R w h = λ r m s. always_mono (k r) m Q R w (h r m s)

-- A sequence is shown by what its first part leaves, `P`.
pub always_seq :
    {A B : Type 0} (p : Prog A) (f : A → Prog B) (d : Db) (P : Flow A → Db → Type 0)
    (Q : Flow B → Db → Type 0)
    → Always p d P
    → ((v : Flow A) (e : Db) → P v e → Then f Q v e)
    → Always (p >>= f) d Q
always_seq p f d P Q h w = always_bind p f d Q (always_mono p d P (Then f Q) w h)

pub always_both :
    {A : Type 0} (p : Prog A) (d : Db) (Q R : Flow A → Db → Type 0)
    → Always p d Q
    → Always p d R
    → Always p d (λ f e. Q f e × R f e)
always_both (ret a) d Q R h k = (h, k)
always_both (stop o) d Q R h k = (h, k)
always_both (call c f) d Q R h k = λ r m s. always_both (f r) m Q R (h r m s) (k r m s)
