-- ===== src/Store/Rules.antt =====
-- One case rule for each call: what is to be shown of its replies, one premise for each way in
-- which it can end, with the next database put in.
use zerohttp_example.Base.{
  String, ◌≡◌, ◌≢◌, sym, subst, inl, inr, Bool, true, false, Option, none, some, List, Result, ok,
  err, All,
}
use zerohttp_example.Base.Int.{ℤ, ◌≤ℤ◌}
use zerohttp_example.Models.{User, Record, Order, Time}
use zerohttp_example.Store.{
  get_user, get_user_by_email, get_record, decrement_stock, get_order, new_xid,
}
use zerohttp_example.Store.Spec.{Db, Spec, Reads, Writes, with_taken}

pub on_read :
    {A : Type 0} {K : A → Type 0} {d : Db} (P : Result A → Db → Type 0)
    → ((e : String) → P (err e) d)
    → ((a : A) → K a → P (ok a) d)
    → (r : Result A) (m : Db) → Reads r K d m
    → P r m
on_read P bad good (ok a) m (h, e) = subst (P (ok a)) (sym e) (good a h)
on_read P bad good (err t) m e = subst (P (err t)) (sym e) (bad t)

on_lookup :
    {A : Type 0} {o : Option A} {d : Db} (P : Result (Option A) → Db → Type 0)
    → ((e : String) → P (err e) d)
    → (o ≡ none → P (ok none) d)
    → ((a : A) → o ≡ some a → P (ok (some a)) d)
    → (r : Result (Option A)) (m : Db) → Reads r (λ x. x ≡ o) d m
    → P r m
on_lookup P bad missing good =
    on_read P bad (elim [ none ↦ λ h. missing (sym h) | some a ↦ λ h. good a (sym h) ])

pub on_write :
    {d d' : Db} (P : Result (Unit {0}) → Db → Type 0)
    → ((e : String) → P (err e) d)
    → ((e : String) → P (err e) d')
    → P (ok tt) d'
    → (r : Result (Unit {0})) (m : Db) → Writes r d d' m
    → P r m
on_write P bad worse good (ok u) m e = subst (P (ok tt)) (sym e) good
on_write P bad worse good (err t) m (inl e) = subst (P (err t)) (sym e) (bad t)
on_write P bad worse good (err t) m (inr e) = subst (P (err t)) (sym e) (worse t)

pub on_get_user :
    {id : String} {d : Db} (P : Result (Option User) → Db → Type 0)
    → ((e : String) → P (err e) d)
    → (d.users id ≡ none → P (ok none) d)
    → ((u : User) → d.users id ≡ some u → P (ok (some u)) d)
    → (r : Result (Option User)) (m : Db) → Spec (get_user id) d r m
    → P r m
on_get_user P = on_lookup P

pub on_get_record :
    {id : String} {d : Db} (P : Result (Option Record) → Db → Type 0)
    → ((e : String) → P (err e) d)
    → (d.records id ≡ none → P (ok none) d)
    → ((r : Record) → d.records id ≡ some r → P (ok (some r)) d)
    → (r : Result (Option Record)) (m : Db) → Spec (get_record id) d r m
    → P r m
on_get_record P = on_lookup P

pub on_get_order :
    {id : String} {d : Db} (P : Result (Option Order) → Db → Type 0)
    → ((e : String) → P (err e) d)
    → (d.orders id ≡ none → P (ok none) d)
    → ((o : Order) → d.orders id ≡ some o → P (ok (some o)) d)
    → (r : Result (Option Order)) (m : Db) → Spec (get_order id) d r m
    → P r m
on_get_order P = on_lookup P

pub on_get_user_by_email :
    {email : String} {d : Db} (P : Result (Option User) → Db → Type 0)
    → ((e : String) → P (err e) d)
    → (((id : String) (u : User) → d.users id ≡ some u → ¬ (u.email ≡ email)) → P (ok none) d)
    → ((u : User) → d.users u.id ≡ some u → u.email ≡ email → P (ok (some u)) d)
    → (r : Result (Option User)) (m : Db) → Spec (get_user_by_email email) d r m
    → P r m
on_get_user_by_email P bad missing good =
    on_read P bad (elim [ none ↦ missing | some u ↦ λ h. good u h.0 h.1 ])

pub on_list :
    {A : Type 0} {K : A → Type 0} {d : Db} (P : Result (List A × ℤ) → Db → Type 0)
    → ((e : String) → P (err e) d)
    → ((xs : List A) (total : ℤ) → All K xs → P (ok (xs, total)) d)
    → (r : Result (List A × ℤ)) (m : Db) → Reads r (λ p. All K p.0) d m
    → P r m
on_list P bad good = on_read P bad (λ p h. good p.0 p.1 h)

pub on_decrement_stock :
    {id : String} {d : Db} (q : ℤ) (P : Result Bool → Db → Type 0)
    → ((e : String) → P (err e) d)
    → ((e : String) (r : Record) (t : Time)
        → d.records id ≡ some r
        → q ≤ℤ r.stock
        → P (err e) (with_taken d id r q t))
    → (((r : Record) → d.records id ≡ some r → ¬ (q ≤ℤ r.stock)) → P (ok false) d)
    → ((r : Record) (t : Time)
        → d.records id ≡ some r
        → q ≤ℤ r.stock
        → P (ok true) (with_taken d id r q t))
    → (r : Result Bool) (m : Db) → Spec (decrement_stock id q) d r m
    → P r m
on_decrement_stock q P bad worse short good (ok true) m (r, t, h, k, e) =
    subst (P (ok true)) (sym e) (good r t h k)
on_decrement_stock q P bad worse short good (ok false) m (h, e) =
    subst (P (ok false)) (sym e) (short h)
on_decrement_stock q P bad worse short good (err x) m (inl e) = subst (P (err x)) (sym e) (bad x)
on_decrement_stock q P bad worse short good (err x) m (inr (r, t, h, k, e)) =
    subst (P (err x)) (sym e) (worse x r t h k)

pub on_new_xid :
    {d : Db} (P : String → Db → Type 0)
    → ((x : String) → d.users x ≡ none → d.records x ≡ none → d.orders x ≡ none → x ≢ "" → P x d)
    → (r : String) (m : Db) → Spec new_xid d r m
    → P r m
on_new_xid P good r m (hu, hr, ho, e, named) = subst (P r) (sym e) (good r hu hr ho named)

-- A call of the environment that leaves the database alone.
pub on_pure :
    {A : Type 0} {d : Db} (P : A → Db → Type 0)
    → ((a : A) → P a d)
    → (a : A) (m : Db) → m ≡ d
    → P a m
on_pure P good a m e = subst (P a) (sym e) (good a)
