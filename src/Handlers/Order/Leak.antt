-- ===== src/Handlers/Order/Leak.antt =====
-- A refused order keeps the stock that it took (handlers/order.go): the loop of `CreateOrder`
-- returns at the first item that it cannot reserve and gives nothing back.
use zerohttp_example.Base.{
  ◌≡◌, ◌≢◌, refl, inl, inr, true, false, Bool-cases, ◌==◌, none, some, List, ◌∷◌, eq_iff, ok,
}
use zerohttp_example.Base.Int.{◌≤ℤ◌}
use zerohttp_example.Http.{Request, Outcome, problem, failed}
use zerohttp_example.Models.{Record, Time, Address}
use zerohttp_example.Models.Platform.{Platform}
use zerohttp_example.Api.{OrderItemRequest, CreateOrderRequest}
use zerohttp_example.Store.Spec.{Db, taken, with_taken}
use zerohttp_example.Store.Rules.{on_get_record, on_decrement_stock}
use zerohttp_example.Prog.Always.{Ensures}
use zerohttp_example.Handlers.Middleware.{get_user_id}
use zerohttp_example.Handlers.Order.{reserve, reserve_all, create_order}

-- A store call has failed, or the reply is 404, no order has been placed, and the units of the
-- first item are gone.
abbrev pub LosesStock : Db → OrderItemRequest → Record → Outcome → Db → Type 0
LosesStock d i r (failed t) e = Unit {0}
LosesStock d i r (problem status detail) e =
    (status ≡ 404)
    × (e.orders ≡ d.orders)
    × (t : Time) × (e.records i.record_id ≡ some (taken r i.quantity t))
LosesStock d i r o e = ⊥

module _ (pf : Platform) (r : Request) (d : Db) (i j : OrderItemRequest)
    (rest : List OrderItemRequest) (to : Address) (x : Record) (known : r.claims.subject ≢ "")
    (stored : d.records i.record_id ≡ some x) (current : x.archived ≡ false)
    (covered : i.quantity ≤ℤ x.stock) (missing : d.records j.record_id ≡ none) where
  abbrev pub two_items : CreateOrderRequest
  two_items = record { items = i ∷ j ∷ rest; shipping_address = to }

  is_taken :
      (z : Record) (t : Time)
      → d.records i.record_id ≡ some z
      → (with_taken d i.record_id z i.quantity t).records i.record_id ≡ some (taken x i.quantity t)
  is_taken z t h =
      let self : (i.record_id == i.record_id) ≡ true = (eq_iff i.record_id i.record_id).1 refl in
      let same : z ≡ x = cc in simp (self, same)

  not_there :
      (z : Record) (t : Time) (y : Record)
      → ¬ ((with_taken d i.record_id z i.quantity t).records j.record_id ≡ some y)
  not_there z t y h = elim (Bool-cases (j.record_id == i.record_id)) [
    | inl e ↦ let same = (eq_iff j.record_id i.record_id).0 e in cc same
    | inr e ↦ let there = rw e at h in cc there
  ]

  -- If the caller has a subject, the first item of the request is a record that is not archived and
  -- has the units in stock, and the second item is no record, then `CreateOrder` replies 404, stores
  -- no order and leaves the stock of the first item lower by its units; unless a store call fails.
  pub create_order-LosesStock : Ensures (create_order pf r (ok two_items)) d (LosesStock d i x)
  unfolding create_order get_user_id reserve_all reserve
  create_order-LosesStock = elim (Bool-cases (r.claims.subject == "")) [
    | inl e ↦ absurd (known ((eq_iff _ _).0 e))
    | inr e ↦ rw e (
        on_get_record {id = i.record_id} {d = d} _ (λ t. tt) (λ h. absurd (cc h))
          λ y h.
            let same : y ≡ x = cc in
            simp (same, current)
              (on_decrement_stock {id = i.record_id} {d = d} i.quantity _ (λ t. tt)
                (λ t z s hz q. tt) (λ short. absurd (short x stored covered))
                λ z s hz q.
                  on_get_record {id = j.record_id} {d = with_taken d i.record_id z i.quantity s} _
                    (λ t. tt) (λ _. (refl, refl, s, is_taken z s hz))
                    (λ y' h'. absurd (not_there z s y' h'))))
  ]
