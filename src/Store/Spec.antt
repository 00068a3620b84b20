-- ===== src/Store/Spec.antt =====
-- What the interface of store/store.go promises: the abstract database, three tables by id, and
-- for each call the replies and the next database that are allowed. A write that replies with an
-- error may or may not have been made. `xid.New` gives an id that no
-- table has, and not the empty one.
use zerohttp_example.Base.{
  String, ◌≡◌, ◌≢◌, ◌⊎◌, Bool, true, false, if◌then◌else◌, ◌==◌, Option, none, some, Result, ok,
  err, All,
}
use zerohttp_example.Base.Int.{ℤ, ◌-ℤ◌, ◌≤ℤ◌}
use zerohttp_example.Models.{User, Record, Order, Time, touch}
use zerohttp_example.Store.{
  Call, Reply, get_user, save_user, get_user_by_email, get_all_users, get_record, save_record,
  get_all_records, get_filtered_records, decrement_stock, get_order, save_order, get_orders_by_user,
  get_all_orders, new_xid,
}

abbrev pub Table : Type 0 → Type 0
Table A = String → Option A

abbrev pub put : {A : Type 0} → Table A → String → A → Table A
put t k a j = if j == k then some a else t j

pub record Db : Type 0 where
  pub users : Table User
  pub records : Table Record
  pub orders : Table Order

abbrev pub with_user : Db → User → Db
with_user d u = record d { users = put d.users u.id u }

abbrev pub with_record : Db → Record → Db
with_record d r = record d { records = put d.records r.id r }

abbrev pub with_order : Db → Order → Db
with_order d o = record d { orders = put d.orders o.id o }

-- A record with `q` units taken from its stock at the given instant.
abbrev pub taken : Record → ℤ → Time → Record
taken r q t = record r { base = touch r.base t; stock = r.stock -ℤ q }

abbrev pub with_taken : Db → String → Record → ℤ → Time → Db
with_taken d id r q t = record d { records = put d.records id (taken r q t) }

-- The stock of `id` covers `q`, and `e` is the database after `q` units of it are taken.
abbrev pub Takes : Db → String → ℤ → Db → Type 0
Takes d id q e =
    (r : Record) × (t : Time) × (d.records id ≡ some r)
    × (q ≤ℤ r.stock)
    × (e ≡ with_taken d id r q t)

-- A read replies with what satisfies `P`, or fails; it changes nothing.
abbrev pub Reads : {A : Type 0} → Result A → (A → Type 0) → Db → Db → Type 0
Reads (ok a) P d e = P a × (e ≡ d)
Reads (err _) P d e = e ≡ d

abbrev pub Writes : Result (Unit {0}) → Db → Db → Db → Type 0
Writes (ok _) d d' e = e ≡ d'
Writes (err _) d d' e = (e ≡ d) ⊎ (e ≡ d')

abbrev pub Decrements : Result Bool → Db → String → ℤ → Db → Type 0
Decrements (ok true) d id q e = Takes d id q e
Decrements (ok false) d id q e = ((r : Record) → d.records id ≡ some r → ¬ (q ≤ℤ r.stock)) × (e ≡ d)
Decrements (err _) d id q e = (e ≡ d) ⊎ Takes d id q e

abbrev pub HasEmail : Db → String → Option User → Type 0
HasEmail d email none = (id : String) (u : User) → d.users id ≡ some u → ¬ (u.email ≡ email)
HasEmail d email (some u) = (d.users u.id ≡ some u) × (u.email ≡ email)

abbrev pub Spec : (c : Call) → Db → Reply c → Db → Type 0
Spec (get_user id) d r e = Reads r (λ o. o ≡ d.users id) d e
Spec (save_user u) d r e = Writes r d (with_user d u) e
Spec (get_user_by_email email) d r e = Reads r (HasEmail d email) d e
Spec (get_all_users f) d r e = Reads r (λ p. All (λ u. d.users u.id ≡ some u) p.0) d e
Spec (get_record id) d r e = Reads r (λ o. o ≡ d.records id) d e
Spec (save_record x) d r e = Writes r d (with_record d x) e
Spec get_all_records d r e =
    Reads r (All (λ x. (d.records x.id ≡ some x) × (x.archived ≡ false))) d e
Spec (get_filtered_records f) d r e =
    Reads r (λ p. All (λ x. (d.records x.id ≡ some x) × (x.archived ≡ false)) p.0) d e
Spec (decrement_stock id q) d r e = Decrements r d id q e
Spec (get_order id) d r e = Reads r (λ o. o ≡ d.orders id) d e
Spec (save_order o) d r e = Writes r d (with_order d o) e
Spec (get_orders_by_user f) d r e =
    Reads r (λ p. All (λ o. (d.orders o.id ≡ some o) × (o.user_id ≡ f.user_id)) p.0) d e
Spec (get_all_orders f) d r e = Reads r (λ p. All (λ o. d.orders o.id ≡ some o) p.0) d e
Spec new_xid d r e =
    (d.users r ≡ none) × (d.records r ≡ none) × (d.orders r ≡ none) × (e ≡ d) × (r ≢ "")
Spec c d r e = e ≡ d
