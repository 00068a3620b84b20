-- ===== src/Handlers/Order/Cancel.antt =====
-- `CancelOrder` as a whole (handlers/order.go).
use zerohttp_example.Base.{
  String, ◌≡◌, ◌≢◌, refl, ap, ◌⊎◌, inl, inr, Bool-cases, ◌==◌, none, some, eq_iff,
}
use zerohttp_example.Http.{Request, Outcome, no_content, problem, failed}
use zerohttp_example.Http
use zerohttp_example.Models.{Order, Time, status_pending, status_cancelled, touch}
use zerohttp_example.Store.{save_order, now}
use zerohttp_example.Store.Spec.{Db, put, with_order}
use zerohttp_example.Store.Rules.{on_get_order, on_pure, on_write}
use zerohttp_example.Prog.{Flow, ran, stopped, ret, ask, try, ◌>>=◌, ◌>>◌}
use zerohttp_example.Prog.Always.{Ensures, Then, outcome, always_seq}
use zerohttp_example.Handlers.Order.{restore_stock, cancel_order, is_stranger}
use zerohttp_example.Handlers.Order.Access.{MaySee, is_stranger-MaySee}
use zerohttp_example.Handlers.Order.Stock.{units, IsKeyed}
use zerohttp_example.Handlers.Order.Restore.{
  Gained, GainedUpTo, Fits, AreCounts, Restored, Gained-UpTo, units_nonneg, restore_stock-Restored,
}

-- The order as `CancelOrder` saves it.
abbrev pub cancelled : Order → Time → Order
cancelled x t = record x { base = touch x.base t; status = status_cancelled }

-- How `CancelOrder` ends. It cancels the pending order of the path, for a caller who may see it,
-- and gives each stored record the units of the order back; each refusal changes nothing and says
-- why; a failed store call leaves no more than that given back, and the order as it was or
-- cancelled.
abbrev pub Cancels : Request → Db → Outcome → Db → Type 0
Cancels r d no_content e =
    (x : Order) × (t : Time) × (d.orders (r.path_value "id") ≡ some x)
    × MaySee r x
    × (x.status ≡ status_pending)
    × ((j : String) → Gained (d.records j) (e.records j) (units j x.items))
    × (e.orders ≡ (with_order d (cancelled x t)).orders)
    × (e.users ≡ d.users)
Cancels r d (problem status detail) e =
    (e ≡ d)
    × (((status ≡ 400) × (r.path_value "id" ≡ ""))
        ⊎ ((status ≡ 404) × (d.orders (r.path_value "id") ≡ none))
        ⊎ ((status ≡ 403) × (x : Order) × (d.orders (r.path_value "id") ≡ some x) × (¬ MaySee r x))
        ⊎ ((status ≡ 409)
            × (x : Order) × (d.orders (r.path_value "id") ≡ some x)
            × (x.status ≢ status_pending)))
Cancels r d (failed t) e =
    (e ≡ d)
    ⊎ ((x : Order) × (t : Time) × (d.orders (r.path_value "id") ≡ some x)
        × (x.status ≡ status_pending)
        × ((j : String) → GainedUpTo (d.records j) (e.records j) (units j x.items))
        × (e.users ≡ d.users)
        × ((e.orders ≡ d.orders) ⊎ (e.orders ≡ (with_order d (cancelled x t)).orders)))
Cancels r d o e = ⊥

module _ (r : Request) (d : Db) where
  module _ (x : Order) (h : d.orders (r.path_value "id") ≡ some x) (may : MaySee r x)
      (pending : x.status ≡ status_pending) (c : AreCounts x.items) where
    up_to :
        (e : Db)
        → ((j : String) → Gained (d.records j) (e.records j) (units j x.items))
        → (j : String) → GainedUpTo (d.records j) (e.records j) (units j x.items)
    up_to e g j = Gained-UpTo (d.records j) (e.records j) _ (units_nonneg j x.items c) (g j)

    -- The rest of the handler, after the loop.
    mark :
        (v : Flow (Unit {0})) (e : Db)
        → Restored x.items d v e
        → Then
            (λ _. do
              updated_at ← ask now
              try
                  (← ask (
                    save_order
                      (record x { base = touch x.base updated_at; status = status_cancelled })))
              ret no_content)
            (λ f. Cancels r d (outcome f))
            v
            e
    mark (ran _) e (g, u, o) = on_pure _ λ t.
        on_write _ (λ a. inr (x, t, h, pending, up_to e g, u, inl o))
          (λ a. inr (x, t, h, pending, up_to e g, u, inr (ap (λ m. put m x.id (cancelled x t)) o)))
          (x, t, h, may, pending, g, ap (λ m. put m x.id (cancelled x t)) o, u)
    mark (stopped (failed a)) e (g, u, o) = inr (x, 0, h, pending, g, u, inl o)
    mark (stopped (problem _ _)) m r = absurd r
    mark (stopped (Http.rendered _ _)) m r = absurd r
    mark (stopped (Http.paged _ _ _ _)) m r = absurd r
    mark (stopped Http.no_content) m r = absurd r
    mark (stopped (Http.panicked _)) m r = absurd r

  -- Every run of `CancelOrder` ends in one of three ways. A reply of 204 has cancelled the pending
  -- order of the path, whose owner or an admin called, and given each stored record the units of
  -- the order back. A refusal changes nothing: an empty id is 400, an unknown order 404, a
  -- stranger's call 403, an order that is not pending 409. A failed store call has given back no
  -- more than these units. Records stand under their own ids, the quantities of the order are not
  -- negative, and the stocks stay in the range of `int`.
  pub cancel_order-Cancels :
      IsKeyed d
      → ((x : Order) → d.orders (r.path_value "id") ≡ some x → Fits d x.items × AreCounts x.items)
      → Ensures (cancel_order r) d (Cancels r d)
  unfolding cancel_order
  cancel_order-Cancels k f = elim (Bool-cases (r.path_value "id" == "")) [
    | inl e ↦ rw e (refl, inl (refl, (eq_iff _ _).0 e))
    | inr e ↦ rw e (
        on_get_order _ (λ t. inl refl) (λ h. (refl, inr (inl (refl, h))))
          λ x h. elim (Bool-cases (is_stranger r x)) [
            | inl s ↦ rw s (refl, inr (inr (inl (refl, x, h, (is_stranger-MaySee r x).1 s))))
            | inr s ↦ rw s (elim (Bool-cases (x.status == status_pending)) [
              | inl p ↦ rw p (
                  always_seq (restore_stock x.items) _ d (Restored x.items d) _
                    (restore_stock-Restored x.items d k (f x h).0 (f x h).1)
                    (mark x h ((is_stranger-MaySee r x).0 s) ((eq_iff _ _).0 p) (f x h).1))
              | inr p ↦ rw p (
                refl,
                inr (inr (inr (refl, x, h, λ q. cc ((eq_iff x.status status_pending).1 q)))),
              )
            ])
          ])
  ]
