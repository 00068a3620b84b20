-- ===== src/Handlers/Order/Reserve.antt =====
-- The loop of `CreateOrder` (handlers/order.go): what it takes from the stock and what it hands on.
use zerohttp_example.Base.{
  String, ◌≡◌, refl, ◌⊎◌, inl, inr, false, Bool-cases, ◌==◌, some, List, [], ◌∷◌, map, arith,
  eq_iff, All,
}
use zerohttp_example.Base.Int.{ℤ, pos, ◌+ℤ◌, ◌≤ℤ◌, int_laws}
use zerohttp_example.Http.{Outcome, problem, failed}
use zerohttp_example.Models.{OrderItem, Record, Time}
use zerohttp_example.Api.{OrderItemRequest}
use zerohttp_example.Store.Spec.{Db, with_taken}
use zerohttp_example.Store.Rules.{on_get_record, on_decrement_stock}
use zerohttp_example.Prog.{Flow, ran, stopped, ◌>>=◌, ret}
use zerohttp_example.Prog.Always.{Always, Then, always_seq}
use zerohttp_example.Handlers.Order.{reserve, reserve_all}
use zerohttp_example.Handlers.Order.Stock.{
  stock_of, units, IsKeyed, stock_of-with_taken, with_taken-IsKeyed,
}

-- How a request for an item is refused, or that a store call failed.
abbrev pub IsRefusal : Outcome → Type 0
IsRefusal (problem status detail) = (status ≡ 404) ⊎ (status ≡ 409)
IsRefusal (failed t) = Unit {0}
IsRefusal o = ⊥

-- The item of an order for a request: the record's data and the requested quantity.
abbrev pub ItemOf : OrderItemRequest → Record → OrderItem → Type 0
ItemOf i r x =
    (x.record_id ≡ i.record_id)
    × (x.title ≡ r.title)
    × (x.artist ≡ r.artist)
    × (x.price ≡ r.price)
    × (x.quantity ≡ i.quantity)

-- What one round leaves: the requested units are taken of an unarchived record that covers them;
-- or the request is refused, and nothing is taken unless the store failed after it took the units.
abbrev pub Reserved : OrderItemRequest → Db → Flow OrderItem → Db → Type 0
Reserved i d (ran x) e =
    (r : Record) × (t : Time) × (d.records i.record_id ≡ some r)
    × (r.archived ≡ false)
    × (i.quantity ≤ℤ r.stock)
    × ItemOf i r x
    × (e ≡ with_taken d i.record_id r i.quantity t)
Reserved i d (stopped o) e =
    IsRefusal o
    × ((e ≡ d)
        ⊎ ((r : Record) × (t : Time) × (d.records i.record_id ≡ some r)
            × (e ≡ with_taken d i.record_id r i.quantity t)))

pub reserve-Reserved :
    (i : OrderItemRequest) (d : Db) → IsKeyed d → Always (reserve i) d (Reserved i d)
unfolding reserve
reserve-Reserved i d k =
    on_get_record _ (λ t. (tt, inl refl)) (λ h. (inl refl, inl refl))
      λ r h. elim (Bool-cases r.archived) [
        | inl a ↦ rw a (inr refl, inl refl)
        | inr a ↦ rw a (
            on_decrement_stock _ _ (λ t. (tt, inl refl)) (λ t x s hx q. (tt, inr (x, s, hx, refl)))
              (λ n. (inr refl, inl refl))
              λ x s hx q.
                let same : r ≡ x = cc in
                (x, s, hx, cc, q, (k i.record_id r h, cc, cc, cc, refl), refl))
      ]

-- The record and the quantity of each item, as asked for and as reserved.
abbrev pub asked : List OrderItemRequest → List (String × ℤ)
asked = map (λ i. (i.record_id, i.quantity))

abbrev pub listed : List OrderItem → List (String × ℤ)
listed = map (λ x. (x.record_id, x.quantity))

-- At least one unit of each item is asked for, as the validator's tag says.
abbrev pub ArePositive : List OrderItemRequest → Type 0
ArePositive = All (λ i. pos 1 ≤ℤ i.quantity)

-- What the loop leaves. When it ends, the stock of each record has gone down by the units of that
-- record in the items; when it is stopped, no stock has gone up.
abbrev pub ReservedAll : List OrderItemRequest → Db → Flow (List OrderItem) → Db → Type 0
ReservedAll is d (ran xs) e =
    ((j : String) → (stock_of e j +ℤ units j xs ≡ stock_of d j) × (stock_of e j ≤ℤ stock_of d j))
    × (listed xs ≡ asked is)
    × IsKeyed e
    × (e.users ≡ d.users)
    × (e.orders ≡ d.orders)
ReservedAll is d (stopped o) e =
    ((j : String) → stock_of e j ≤ℤ stock_of d j)
    × IsRefusal o
    × (e.users ≡ d.users)
    × (e.orders ≡ d.orders)

stock_of-taken-le :
    (d : Db) (id : String) (r : Record) (q : ℤ) (t : Time) (j : String)
    → d.records id ≡ some r
    → pos 1 ≤ℤ q
    → stock_of (with_taken d id r q t) j ≤ℤ stock_of d j
stock_of-taken-le d id r q t j h p = elim (Bool-cases (j == id)) [
  | inl e ↦ rw (e, (eq_iff j id).0 e, h) (omega int_laws)
  | inr e ↦ rw e (omega arith)
]

module _ (i : OrderItemRequest) (is : List OrderItemRequest) (d : Db)
    (p : pos 1 ≤ℤ i.quantity) where
  after_rest :
      (x : OrderItem) (r : Record) (t : Time)
      → d.records i.record_id ≡ some r
      → ItemOf i r x
      → (f : Flow (List OrderItem)) (e : Db)
      → ReservedAll is (with_taken d i.record_id r i.quantity t) f e
      → Then (λ xs. ret (x ∷ xs)) (ReservedAll (i ∷ is) d) f e
  after_rest x r t h o (ran xs) e (s, l, k, u, v) = (
    (λ j.
        rw (o.0, o.4)
          (
            grind (int_laws, (s j).0, stock_of-with_taken d i.record_id r i.quantity t j h),
            omega (arith, (s j).1, stock_of-taken-le d i.record_id r i.quantity t j h p),
          )),
    cc,
    k,
    u,
    v,
  )
  after_rest x r t h o (stopped a) e (s, l, u, v) =
      ((λ j. omega (arith, s j, stock_of-taken-le d i.record_id r i.quantity t j h p)), l, u, v)

  after_reserve :
      IsKeyed d
      → ((e : Db) → IsKeyed e → Always (reserve_all is) e (ReservedAll is e))
      → (f : Flow OrderItem) (e : Db) → Reserved i d f e
      → Then (λ x. reserve_all is >>= λ xs. ret (x ∷ xs)) (ReservedAll (i ∷ is) d) f e
  after_reserve k rest (ran x) e (r, t, h, a, q, o, m) =
      let d' = with_taken d i.record_id r i.quantity t in
      rw m (
        always_seq (reserve_all is) _ d' (ReservedAll is d') _
          (rest d' (with_taken-IsKeyed d i.record_id r i.quantity t h k)) (after_rest x r t h o))
  after_reserve k rest (stopped a) e (c, inl m) = rw m ((λ j. omega arith), c, refl, refl)
  after_reserve k rest (stopped a) e (c, inr (r, t, h, m)) =
      rw m ((λ j. stock_of-taken-le d i.record_id r i.quantity t j h p), c, refl, refl)

pub reserve_all-ReservedAll :
    (is : List OrderItemRequest) (d : Db)
    → ArePositive is
    → IsKeyed d
    → Always (reserve_all is) d (ReservedAll is d)
unfolding reserve_all
reserve_all-ReservedAll [] d p k = ((λ j. (omega int_laws, omega arith)), refl, k, refl, refl)
reserve_all-ReservedAll (i ∷ is) d p k =
    always_seq (reserve i) _ d (Reserved i d) _ (reserve-Reserved i d k)
      (after_reserve i is d p.0 k (λ e. reserve_all-ReservedAll is e p.1))
