-- ===== src/Concurrent/Obeys/Orders.antt =====
-- The handlers that save orders keep to the rules (handlers/order.go).
use zerohttp_example.Base.{
  Option, ◌≡◌, refl, inl, inr, Bool-cases, ◌==◌, none, some, List, [], ◌∷◌, arith, eq_iff, All,
  Result, ok, err,
}
use zerohttp_example.Http.{Request}
use zerohttp_example.Models.{OrderItem, status_pending}
use zerohttp_example.Models.New.{new_order, new_base}
use zerohttp_example.Models.Platform.{Platform}
use zerohttp_example.Api.{OrderItemRequest, CreateOrderRequest}
use zerohttp_example.Handlers.Middleware.{get_user_id}
use zerohttp_example.Handlers.Order.{
  create_order, cancel_order, reserve, reserve_all, restore_stock, is_stranger,
}
use zerohttp_example.Handlers.Order.{give_back}
use zerohttp_example.Models.{Record}
use zerohttp_example.Concurrent.Regime.{
  IfFound, Regime, Obeys, Returns, Returns-bind, Returns-any, Obeys-bind,
}
use zerohttp_example.Concurrent.Obeys.{Counted, Validity, Tolerates}

reserve-Returns :
    (g : Regime) (i : OrderItemRequest) → Returns g (λ x. x.quantity ≡ i.quantity) (reserve i)
unfolding reserve
reserve-Returns g i = ground arith

reserve_all-Returns :
    (g : Regime) (is : List OrderItemRequest) → Returns g (Counted is) (reserve_all is)
unfolding reserve_all
reserve_all-Returns g [] = tt
reserve_all-Returns g (i ∷ is) =
    Returns-bind g (reserve i) _ (λ x. x.quantity ≡ i.quantity) _ (reserve-Returns g i)
      λ x same.
        Returns-bind g (reserve_all is) _ (Counted is) _ (reserve_all-Returns g is)
          λ xs rest. (same, rest)

module _ (g : Regime) {v : Validity} (tol : Tolerates g v) where
  reserve-Obeys : (i : OrderItemRequest) → g.Taken i.quantity → Obeys g (reserve i)
  unfolding reserve
  reserve-Obeys i t = ground arith

  reserve_all-Obeys :
      (is : List OrderItemRequest) → All (λ i. g.Taken i.quantity) is → Obeys g (reserve_all is)
  unfolding reserve_all
  reserve_all-Obeys [] t = tt
  reserve_all-Obeys (i ∷ is) (t, ts) =
      Obeys-bind g (reserve i) _ (λ _. Unit {0}) (reserve-Obeys i t) (Returns-any g (reserve i))
        λ x _.
          Obeys-bind g (reserve_all is) _ (λ _. Unit {0}) (reserve_all-Obeys is ts)
            (Returns-any g (reserve_all is)) λ xs _. tt

  pub create_order-Obeys :
      (pf : Platform) (r : Request) (b : Result CreateOrderRequest)
      → ((req : CreateOrderRequest) → b ≡ ok req → v.FineItems req.items)
      → Obeys g (create_order pf r b)
  unfolding create_order new_order new_base
  create_order-Obeys pf r (err e) f = tt
  create_order-Obeys pf r (ok req) f = elim (Bool-cases (get_user_id r == "")) [
    | inl e ↦ rw e tt
    | inr e ↦ rw e (
        Obeys-bind g (reserve_all req.items) _ (Counted req.items)
          (reserve_all-Obeys req.items (tol.taken req.items (f req refl)))
          (reserve_all-Returns g req.items)
          λ items counted id new created updated. (
            tol.placed _ req.items new refl (λ no_one. cc ((eq_iff _ _).1 no_one)) (f req refl)
                counted,
            elim [ ok _ ↦ tt | err _ ↦ tt ],
          ))
  ]

  give_back-Obeys :
      (o : Option Record) (i : OrderItem) → IfFound g.SeenRecord (ok o) → Obeys g (give_back o i)
  unfolding give_back
  give_back-Obeys none i h = tt
  give_back-Obeys (some x) i h = λ t. (tol.stocked x _ t h, elim [ ok _ ↦ tt | err _ ↦ tt ])

  restore_stock-Obeys : (is : List OrderItem) → Obeys g (restore_stock is)
  unfolding restore_stock
  restore_stock-Obeys [] = tt
  restore_stock-Obeys (i ∷ is) = elim [
    | err t ↦ λ s. tt
    | ok o ↦ λ s.
        Obeys-bind g (give_back o i) _ (λ _. Unit {0}) (give_back-Obeys o i s)
          (Returns-any g (give_back o i)) λ _ _. restore_stock-Obeys is
  ]

  pub cancel_order-Obeys : (r : Request) → Obeys g (cancel_order r)
  unfolding cancel_order
  cancel_order-Obeys r = elim (Bool-cases (r.path_value "id" == "")) [
    | inl e ↦ rw e tt
    | inr e ↦ rw e (elim [
      | err t ↦ λ f. tt
      | ok none ↦ λ f. tt
      | ok (some y) ↦ λ f. elim (Bool-cases (is_stranger r y)) [
        | inl e ↦ rw e tt
        | inr e ↦ rw e (elim (Bool-cases (y.status == status_pending)) [
          | inr p ↦ rw p tt
          | inl p ↦ rw p (
              Obeys-bind g (restore_stock y.items) _ (λ _. Unit {0}) (restore_stock-Obeys y.items)
                (Returns-any g (restore_stock y.items))
                λ _ _ t. (tol.withdrawn y t f ((eq_iff _ _).0 p), elim [ ok _ ↦ tt | err _ ↦ tt ]))
        ])
      ]
    ])
  ]
