-- ===== src/Handlers/Order/Fulfil.antt =====
-- When `CreateOrder` places the order (handlers/order.go).
use zerohttp_example.Base.{
  String, ◌≡◌, refl, ap, sym, some-injective, ◌∙◌, inl, inr, false, Bool-cases, ◌==◌, some, List,
  [], ◌∷◌, arith, eq_iff, All, ok, ◌≢◌,
}
use zerohttp_example.Base.Int.{ℤ, pos, ◌+ℤ◌, ◌≤ℤ◌, int_laws}
use zerohttp_example.Http.{Request, Outcome, rendered, paged, problem, failed, no_content, panicked}
use zerohttp_example.Http
use zerohttp_example.Models.{Record, Time, Order}
use zerohttp_example.Models.New.{new_order, new_base}
use zerohttp_example.Models.Platform.{Platform}
use zerohttp_example.Api.{OrderItemRequest, CreateOrderRequest, new_order_response}
use zerohttp_example.Store.Spec.{Db, with_taken}
use zerohttp_example.Store.Rules.{on_get_record, on_decrement_stock, on_new_xid, on_pure, on_write}
use zerohttp_example.Prog.{Flow, ran, stopped}
use zerohttp_example.Prog.Always.{outcome}
use zerohttp_example.Prog.Succeeds.{
  IsRan, Succeeds, NoErr, succeeds_seq, succeeds_mono, succeeds_both, always-succeeds,
}
use zerohttp_example.Handlers.Middleware.{get_user_id}
use zerohttp_example.Handlers.Order.{reserve, reserve_all, create_order}
use zerohttp_example.Handlers.Order.Stock.{
  stock_of, units_if, units_if_nonneg, IsKeyed, stock_of-with_taken,
}
use zerohttp_example.Handlers.Order.Reserve.{ArePositive}
use zerohttp_example.Handlers.Order.Create.{Creates, IsPlaced, create_order-Creates}
use text.Mathlib.TextPositions.{eq_refl}

-- The units of record `j` that are asked for.
abbrev pub wanted : String → List OrderItemRequest → ℤ
wanted j [] = pos 0
wanted j (i ∷ is) = units_if j i.record_id i.quantity +ℤ wanted j is

-- The record is in the catalog.
abbrev pub IsOffered : Db → OrderItemRequest → Type 0
IsOffered d i = (r : Record) × (d.records i.record_id ≡ some r) × (r.archived ≡ false)

-- Every item is in the catalog, and the stocks cover what is asked for in all.
abbrev pub CanServe : List OrderItemRequest → Db → Type 0
CanServe is d = All (IsOffered d) is × ((j : String) → wanted j is ≤ℤ stock_of d j)

wanted_nonneg : (j : String) (is : List OrderItemRequest) → ArePositive is → pos 0 ≤ℤ wanted j is
wanted_nonneg j [] p = omega arith
wanted_nonneg j (i ∷ is) p =
    let first = units_if_nonneg j i.record_id i.quantity (omega (arith, p.0)) in
    omega (int_laws, first, wanted_nonneg j is p.1)

module _ (d : Db) (id : String) (r : Record) (q : ℤ) (t : Time) (h : d.records id ≡ some r)
    (a : r.archived ≡ false) where
  IsOffered-taken :
      (is : List OrderItemRequest)
      → All (IsOffered d) is
      → All (IsOffered (with_taken d id r q t)) is
  IsOffered-taken [] o = tt
  IsOffered-taken (i ∷ is) o = (
    elim (Bool-cases (i.record_id == id)) [ inl e ↦ rw e (_, refl, a) | inr e ↦ rw e o.0 ],
    IsOffered-taken is o.1,
  )

abbrev Served : List OrderItemRequest → {A : Type 0} → Flow A → Db → Type 0
Served is (ran a) e = CanServe is e
Served is (stopped o) e = ⊥

module _ (i : OrderItemRequest) (is : List OrderItemRequest) (d : Db)
    (p : ArePositive (i ∷ is)) where
  enough :
      (r : Record)
      → d.records i.record_id ≡ some r
      → wanted i.record_id (i ∷ is) ≤ℤ stock_of d i.record_id
      → i.quantity ≤ℤ r.stock
  enough r h w =
      let own : units_if i.record_id i.record_id i.quantity ≡ i.quantity =
        rw (eq_refl i.record_id) refl in
      let rest = wanted_nonneg i.record_id is p.1 in
      let all = rw (own, h) at w in omega (int_laws, all, rest)

  served :
      (r : Record) (t : Time)
      → d.records i.record_id ≡ some r
      → r.archived ≡ false
      → CanServe (i ∷ is) d
      → CanServe is (with_taken d i.record_id r i.quantity t)
  served r t h a c = (
    IsOffered-taken d i.record_id r i.quantity t h a is c.0.1,
    (λ j. grind (int_laws, c.1 j, stock_of-with_taken d i.record_id r i.quantity t j h)),
  )

  reserve-Served : CanServe (i ∷ is) d → Succeeds (reserve i) d (Served is)
  unfolding reserve
  reserve-Served c =
      let (z, there, listed) = c.0.0 in
      on_get_record {id = i.record_id} {d = d} (λ x m. NoErr x → _) (λ t. λ bad. absurd bad)
        (λ h. λ _. absurd (cc (there, h)))
        λ r h. λ _.
          let current : r.archived ≡ false =
            ap (λ x. x.archived) (some-injective r z (sym h ∙ there)) ∙ listed in
          rw current (
            on_decrement_stock {id = i.record_id} {d = d} i.quantity (λ x m. NoErr x → _)
              (λ t. λ bad. absurd bad) (λ t x s hx q. λ bad. absurd bad)
              (λ short. λ _. absurd (short r h (enough r h (c.1 i.record_id))))
              (λ x t hx q. λ _.
                served x t hx (ap (λ y. y.archived) (some-injective x z (sym hx ∙ there)) ∙ listed)
                  c))

reserve_all-Served :
    (is : List OrderItemRequest) (d : Db)
    → ArePositive is
    → CanServe is d
    → Succeeds (reserve_all is) d (λ f _. IsRan f)
unfolding reserve_all
reserve_all-Served [] d p c = tt
reserve_all-Served (i ∷ is) d p c =
    succeeds_seq (reserve i) _ d (Served is) _ (reserve-Served i is d p c) (elim [
      | ran x ↦ λ e h.
          succeeds_seq (reserve_all is) _ e (λ f _. IsRan f) _ (reserve_all-Served is e p.1 h)
            (elim [ ran xs ↦ λ e' _. tt | stopped o ↦ λ e' g. absurd g ])
      | stopped o ↦ λ e h. absurd h
    ])

abbrev IsRendered : Outcome → Type 0
IsRendered (rendered status b) = Unit {0}
IsRendered o = ⊥

-- The order has been placed as the request says, and the reply shows it.
abbrev pub Places : Platform → Request → CreateOrderRequest → Db → Outcome → Db → Type 0
Places pf r req d (rendered status b) e =
    (status ≡ 201)
    × (x : Order) × (b ≡ Http.order (new_order_response pf x))
    × IsPlaced pf r req d x e
Places pf r req d o e = ⊥

both_Places :
    (pf : Platform) (r : Request) (req : CreateOrderRequest) (d : Db) (o : Outcome) (e : Db)
    → IsRendered o × Creates pf r req d o e
    → Places pf r req d o e
both_Places pf r req d (rendered status b) e h = h.1
both_Places pf r req d (problem status detail) e h = absurd h.0
both_Places pf r req d (failed t) e h = absurd h.0
both_Places pf r req d (Http.paged _ _ _ _) e h = absurd h.0
both_Places pf r req d Http.no_content e h = absurd h.0
both_Places pf r req d (Http.panicked _) e h = absurd h.0

module _ (pf : Platform) (r : Request) (req : CreateOrderRequest) (d : Db) where
  renders :
      r.claims.subject ≢ ""
      → ArePositive req.items
      → CanServe req.items d
      → Succeeds (create_order pf r (ok req)) d (λ f _. IsRendered (outcome f))
  unfolding create_order get_user_id new_order new_base
  renders known p c = elim (Bool-cases (r.claims.subject == "")) [
    | inl e ↦ absurd (known ((eq_iff _ _).0 e))
    | inr e ↦ rw e (
        succeeds_seq (reserve_all req.items) _ d (λ f _. IsRan f) _
          (reserve_all-Served req.items d p c)
          (elim [
            | ran xs ↦ λ m h.
                on_new_xid (λ x m. Unit {0} → _)
                  λ id _ _ fresh _. λ _.
                    on_pure (λ x m. Unit {0} → _)
                      λ created. λ _.
                        on_pure (λ x m. Unit {0} → _)
                          λ updated. λ _.
                            on_write (λ x m. NoErr x → _) (λ t. λ bad. absurd bad)
                              (λ t. λ bad. absurd bad) (λ _. tt)
            | stopped o ↦ λ m h. absurd h
          ]))
  ]

  -- `CreateOrder` refuses no order that it can serve: if the caller has a subject, every item is in
  -- the catalog with a positive quantity, the stocks cover the units that are asked for of each
  -- record in all, and no store call fails, then it replies 201 with the placed order, which is as
  -- asked and has taken its units from the stock. Records stand under their own ids.
  pub create_order-Places :
      r.claims.subject ≢ ""
      → ArePositive req.items
      → IsKeyed d
      → CanServe req.items d
      → Succeeds (create_order pf r (ok req)) d (λ f e. Places pf r req d (outcome f) e)
  create_order-Places known p k c =
      let whole = create_order pf r (ok req) in
      succeeds_mono whole d _ _ (λ f e h. both_Places pf r req d (outcome f) e h)
        (succeeds_both whole d _ _ (renders known p c)
          (always-succeeds whole d _ (create_order-Creates pf r req d p k)))
