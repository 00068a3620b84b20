-- ===== src/Prog/Succeeds.antt =====
-- What a program does on every run on which no call fails: the replies are those that `Always`
-- allows, without the errors.
use zerohttp_example.Base.{Result, ok, err}
use zerohttp_example.Store.{
  Call, Reply, get_user, save_user, get_user_by_email, get_all_users, get_record, save_record,
  get_all_records, get_filtered_records, decrement_stock, get_order, save_order, get_orders_by_user,
  get_all_orders, now, new_xid, read_random, hash_encoded, generate_access_token,
  generate_refresh_token,
}
use zerohttp_example.Store.Spec.{Db, Spec}
use zerohttp_example.Prog.{Prog, ret, stop, call, ◌>>=◌, Flow, ran, stopped}
use zerohttp_example.Prog.Always.{Always}

abbrev pub NoErr : {A : Type 0} → Result A → Type 0
NoErr (ok _) = Unit {0}
NoErr (err _) = ⊥

-- The call has not failed.
abbrev pub IsOk : (c : Call) → Reply c → Type 0
IsOk (get_user id) r = NoErr r
IsOk (save_user u) r = NoErr r
IsOk (get_user_by_email email) r = NoErr r
IsOk (get_all_users f) r = NoErr r
IsOk (get_record id) r = NoErr r
IsOk (save_record x) r = NoErr r
IsOk get_all_records r = NoErr r
IsOk (get_filtered_records f) r = NoErr r
IsOk (decrement_stock id q) r = NoErr r
IsOk (get_order id) r = NoErr r
IsOk (save_order o) r = NoErr r
IsOk (get_orders_by_user f) r = NoErr r
IsOk (get_all_orders f) r = NoErr r
IsOk now r = Unit {0}
IsOk new_xid r = Unit {0}
IsOk (read_random n) r = NoErr r
IsOk (hash_encoded p) r = NoErr r
IsOk (generate_access_token t) r = NoErr r
IsOk (generate_refresh_token t) r = NoErr r

abbrev pub Succeeds : {A : Type 0} → Prog A → Db → (Flow A → Db → Type 0) → Type 0
Succeeds (ret a) d Q = Q (ran a) d
Succeeds (stop o) d Q = Q (stopped o) d
Succeeds (call c k) d Q = (r : Reply c) (m : Db) → Spec c d r m → IsOk c r → Succeeds (k r) m Q

pub always-succeeds :
    {A : Type 0} (p : Prog A) (d : Db) (Q : Flow A → Db → Type 0) → Always p d Q → Succeeds p d Q
always-succeeds (ret a) d Q h = h
always-succeeds (stop o) d Q h = h
always-succeeds (call c k) d Q h = λ r m s _. always-succeeds (k r) m Q (h r m s)

-- What comes of the rest of a sequence.
abbrev pub Goes : {A B : Type 0} → (A → Prog B) → (Flow B → Db → Type 0) → Flow A → Db → Type 0
Goes f Q (ran a) d = Succeeds (f a) d Q
Goes f Q (stopped o) d = Q (stopped o) d

-- A sequence is shown by what its first part leaves, `P`.
pub succeeds_seq :
    {A B : Type 0} (p : Prog A) (f : A → Prog B) (d : Db) (P : Flow A → Db → Type 0)
    (Q : Flow B → Db → Type 0)
    → Succeeds p d P
    → ((v : Flow A) (e : Db) → P v e → Goes f Q v e)
    → Succeeds (p >>= f) d Q
succeeds_seq (ret a) f d P Q h w = w (ran a) d h
succeeds_seq (stop o) f d P Q h w = w (stopped o) d h
succeeds_seq (call c k) f d P Q h w = λ r m s i. succeeds_seq (k r) f m P Q (h r m s i) w

pub succeeds_mono :
    {A : Type 0} (p : Prog A) (d : Db) (Q R : Flow A → Db → Type 0)
    → ((f : Flow A) (e : Db) → Q f e → R f e)
    → Succeeds p d Q
    → Succeeds p d R
succeeds_mono (ret a) d Q R w h = w (ran a) d h
succeeds_mono (stop o) d Q R w h = w (stopped o) d h
succeeds_mono (call c k) d Q R w h = λ r m s i. succeeds_mono (k r) m Q R w (h r m s i)

pub succeeds_both :
    {A : Type 0} (p : Prog A) (d : Db) (Q R : Flow A → Db → Type 0)
    → Succeeds p d Q
    → Succeeds p d R
    → Succeeds p d (λ f e. Q f e × R f e)
succeeds_both (ret a) d Q R h k = (h, k)
succeeds_both (stop o) d Q R h k = (h, k)
succeeds_both (call c f) d Q R h k = λ r m s i. succeeds_both (f r) m Q R (h r m s i) (k r m s i)

-- The program has come to its end, without an early return.
abbrev pub IsRan : {A : Type 0} → Flow A → Type 0
IsRan (ran a) = Unit {0}
IsRan (stopped o) = ⊥
