-- ===== src/Store/Keyed.antt =====
-- The documents of the three tables stand under their own ids (store/store.go), whatever calls are
-- made.
use zerohttp_example.Base.{
  String, ◌≡◌, sym, subst, ap, ◌∙◌, inl, inr, Bool, Bool-cases, true, false, ◌==◌, some, refl,
  Result, ok, err, eq_iff, some-injective,
}
use zerohttp_example.Base.Int.{ℤ}
use zerohttp_example.Models.{User, Record, Order}
use zerohttp_example.Store.{
  Call, Reply, get_user, save_user, get_user_by_email, get_all_users, get_record, save_record,
  get_all_records, get_filtered_records, decrement_stock, get_order, save_order, get_orders_by_user,
  get_all_orders, now, new_xid, read_random, hash_encoded, generate_access_token,
  generate_refresh_token,
}
use zerohttp_example.Store.Spec.{Table, put, Db, Reads, Writes, Takes, Decrements, taken, Spec}

-- Each document of the table stands under the id that it has.
abbrev pub StandsUnder : {A : Type 0} → (A → String) → Table A → Type 0
StandsUnder {A = A} id_of t = (k : String) (a : A) → t k ≡ some a → id_of a ≡ k

pub record IsWellKeyed (d : Db) : Type 0 where
  pub users : StandsUnder (λ (u : User). u.id) d.users
  pub records : StandsUnder (λ (r : Record). r.id) d.records
  pub orders : StandsUnder (λ (o : Order). o.id) d.orders

pub put-StandsUnder :
    {A : Type 0} (id_of : A → String) (t : Table A) (k : String) (a : A)
    → id_of a ≡ k
    → StandsUnder id_of t
    → StandsUnder id_of (put t k a)
put-StandsUnder id_of t k a own h j b e = elim (Bool-cases (j == k)) [
  | inl s ↦
      let here = rw s at e in
      ap id_of (sym (some-injective a b here)) ∙ own ∙ sym ((eq_iff j k).0 s)
  | inr s ↦ h j b (rw s at e)
]

unchanged : {d e : Db} → e ≡ d → IsWellKeyed d → IsWellKeyed e
unchanged same h = subst IsWellKeyed (sym same) h

Reads-IsWellKeyed :
    {A : Type 0} (r : Result A) (P : A → Type 0) {d e : Db}
    → Reads r P d e
    → IsWellKeyed d
    → IsWellKeyed e
Reads-IsWellKeyed (ok a) P s = unchanged s.1
Reads-IsWellKeyed (err t) P s = unchanged s

Writes-IsWellKeyed :
    (r : Result (Unit {0})) {d d' e : Db}
    → Writes r d d' e
    → IsWellKeyed d
    → IsWellKeyed d'
    → IsWellKeyed e
Writes-IsWellKeyed (ok _) s h h' = unchanged s h'
Writes-IsWellKeyed (err _) (inl s) h h' = unchanged s h
Writes-IsWellKeyed (err _) (inr s) h h' = unchanged s h'

Takes-IsWellKeyed :
    (id : String) (q : ℤ) {d e : Db} → Takes d id q e → IsWellKeyed d → IsWellKeyed e
Takes-IsWellKeyed id q {d = d} (r, t, s, _, same) h = unchanged same (record {
  users = h.users;
  records = put-StandsUnder (λ x. x.id) d.records id (taken r q t) (h.records id r s) h.records;
  orders = h.orders;
})

Decrements-IsWellKeyed :
    (id : String) (q : ℤ) (r : Result Bool) {d e : Db}
    → Decrements r d id q e
    → IsWellKeyed d
    → IsWellKeyed e
Decrements-IsWellKeyed id q (ok true) s = Takes-IsWellKeyed id q s
Decrements-IsWellKeyed id q (ok false) s = unchanged s.1
Decrements-IsWellKeyed id q (err _) (inl s) = unchanged s
Decrements-IsWellKeyed id q (err _) (inr s) = Takes-IsWellKeyed id q s

-- No call of the storage interface puts a document under another id than its own.
pub Spec-IsWellKeyed :
    (c : Call) (d : Db) (r : Reply c) (e : Db) → Spec c d r e → IsWellKeyed d → IsWellKeyed e
Spec-IsWellKeyed (get_user id) d r e s h = Reads-IsWellKeyed r _ s h
Spec-IsWellKeyed (save_user u) d r e s h = Writes-IsWellKeyed r s h (record {
  users = put-StandsUnder (λ x. x.id) d.users u.id u refl h.users;
  records = h.records;
  orders = h.orders;
})
Spec-IsWellKeyed (get_user_by_email email) d r e s h = Reads-IsWellKeyed r _ s h
Spec-IsWellKeyed (get_all_users f) d r e s h = Reads-IsWellKeyed r _ s h
Spec-IsWellKeyed (get_record id) d r e s h = Reads-IsWellKeyed r _ s h
Spec-IsWellKeyed (save_record x) d r e s h = Writes-IsWellKeyed r s h (record {
  users = h.users;
  records = put-StandsUnder (λ y. y.id) d.records x.id x refl h.records;
  orders = h.orders;
})
Spec-IsWellKeyed get_all_records d r e s h = Reads-IsWellKeyed r _ s h
Spec-IsWellKeyed (get_filtered_records f) d r e s h = Reads-IsWellKeyed r _ s h
Spec-IsWellKeyed (decrement_stock id q) d r e s h = Decrements-IsWellKeyed id q r s h
Spec-IsWellKeyed (get_order id) d r e s h = Reads-IsWellKeyed r _ s h
Spec-IsWellKeyed (save_order o) d r e s h = Writes-IsWellKeyed r s h (record {
  users = h.users;
  records = h.records;
  orders = put-StandsUnder (λ x. x.id) d.orders o.id o refl h.orders;
})
Spec-IsWellKeyed (get_orders_by_user f) d r e s h = Reads-IsWellKeyed r _ s h
Spec-IsWellKeyed (get_all_orders f) d r e s h = Reads-IsWellKeyed r _ s h
Spec-IsWellKeyed new_xid d r e s h = unchanged s.3 h
Spec-IsWellKeyed now d r e s h = unchanged s h
Spec-IsWellKeyed (read_random n) d r e s h = unchanged s h
Spec-IsWellKeyed (hash_encoded p) d r e s h = unchanged s h
Spec-IsWellKeyed (generate_access_token c) d r e s h = unchanged s h
Spec-IsWellKeyed (generate_refresh_token c) d r e s h = unchanged s h
