-- ===== src/Handlers/Order/Create.antt =====
-- `CreateOrder` as a whole (handlers/order.go): what it leaves on each way in which it ends.
use zerohttp_example.Base.{
  String, ◌≡◌, ◌≢◌, refl, ap, ◌⊎◌, inl, inr, Bool-cases, ◌==◌, none, List, arith, ok,
}
use zerohttp_example.Base.Int.{◌+ℤ◌, ◌≤ℤ◌}
use zerohttp_example.Http.{Request, Outcome, rendered, problem, failed}
use zerohttp_example.Http
use zerohttp_example.Models.{OrderItem, Order, status_pending}
use zerohttp_example.Models.New.{new_order, total_from}
use zerohttp_example.Models.Platform.{Platform}
use zerohttp_example.Api.{CreateOrderRequest, new_order_response}
use zerohttp_example.Store.{save_order}
use zerohttp_example.Store.Spec.{Db, put, with_order}
use zerohttp_example.Store.Rules.{on_new_xid, on_pure, on_write}
use zerohttp_example.Prog.{Flow, ran, stopped, ret, ask, try, ◌>>=◌, ◌>>◌}
use zerohttp_example.Prog.Always.{Ensures, Then, outcome, always_seq}
use zerohttp_example.Handlers.Middleware.{get_user_id}
use zerohttp_example.Handlers.Order.{reserve_all, create_order}
use zerohttp_example.Handlers.Order.Stock.{stock_of, units, IsKeyed}
use zerohttp_example.Handlers.Order.Reserve.{
  IsRefusal, ReservedAll, ArePositive, asked, listed, reserve_all-ReservedAll,
}

-- `x` is the order for the request, and `e` the database after it has been placed.
pub record IsPlaced (pf : Platform) (r : Request) (req : CreateOrderRequest) (d : Db) (x : Order)
    (e : Db) : Type 0 where
  pub is_new : d.orders x.id ≡ none
  pub named : x.id ≢ ""
  pub stored : e.orders ≡ (with_order d x).orders
  pub owner : x.user_id ≡ r.claims.subject
  pub pending : x.status ≡ status_pending
  pub as_asked : listed x.items ≡ asked req.items
  pub summed : x.total ≡ total_from pf pf.float_zero x.items
  pub shipped_to : x.shipping_address ≡ req.shipping_address
  pub stock_taken : (j : String) → stock_of e j +ℤ units j x.items ≡ stock_of d j
  pub users_kept : e.users ≡ d.users

-- No stock has gone up, and the other tables are as they were.
abbrev pub IsReduced : Db → Db → Type 0
IsReduced d e =
    ((j : String) → stock_of e j ≤ℤ stock_of d j) × (e.users ≡ d.users) × (e.orders ≡ d.orders)

-- How `CreateOrder` ends on a request that has been bound. A `failed` store call may have
-- happened at any point, the last write included.
abbrev pub Creates : Platform → Request → CreateOrderRequest → Db → Outcome → Db → Type 0
Creates pf r req d (rendered status b) e =
    (status ≡ 201)
    × (x : Order) × (b ≡ Http.order (new_order_response pf x))
    × IsPlaced pf r req d x e
Creates pf r req d (problem status detail) e =
    ((status ≡ 401) ⊎ (status ≡ 404) ⊎ (status ≡ 409)) × IsReduced d e
Creates pf r req d (failed t) e = IsReduced d e ⊎ ((x : Order) × IsPlaced pf r req d x e)
Creates pf r req d o e = ⊥

module _ (pf : Platform) (r : Request) (req : CreateOrderRequest) (d : Db) where
  refused : (o : Outcome) (e : Db) → IsRefusal o → IsReduced d e → Creates pf r req d o e
  refused (problem status detail) e (inl h) c = (inr (inl h), c)
  refused (problem status detail) e (inr h) c = (inr (inr h), c)
  refused (failed t) e h c = inl c
  refused (rendered _ _) e h c = elim h [ ]
  refused (Http.paged _ _ _ _) e h c = elim h [ ]
  refused Http.no_content e h c = elim h [ ]
  refused (Http.panicked _) e h c = elim h [ ]

  -- The rest of the handler, after the loop.
  place :
      (v : Flow (List OrderItem)) (e : Db)
      → ReservedAll req.items d v e
      → Then
          (λ items. do
            order ← new_order pf (record {
              user_id = get_user_id r;
              items = items;
              shipping_address = req.shipping_address;
            })
            try (← ask (save_order order))
            ret (rendered 201 (Http.order (new_order_response pf order))))
          (λ f. Creates pf r req d (outcome f))
          v
          e
  unfolding new_order get_user_id
  place (stopped o) e (s, h, u, v) = refused o e h (s, u, v)
  place (ran xs) e (s, l, k, u, v) = on_new_xid _ λ id _ _ fresh named. on_pure _ λ created.
      on_pure _ λ updated.
        let x : Order = record {
          base = record { id = id; mongo_id = ""; created_at = created; updated_at = updated };
          user_id = r.claims.subject;
          items = xs;
          total = total_from pf pf.float_zero xs;
          status = status_pending;
          shipping_address = req.shipping_address;
        } in
        let placed : IsPlaced pf r req d x (with_order e x) = record {
          is_new = rw (← v) fresh;
          named = named;
          stored = ap (λ t. put t id x) v;
          owner = refl;
          pending = refl;
          as_asked = l;
          summed = refl;
          shipped_to = refl;
          stock_taken = λ j. (s j).0;
          users_kept = u;
        } in
        on_write _ (λ t. inl ((λ j. (s j).1), u, v)) (λ t. inr (x, placed)) (refl, x, refl, placed)

  -- Every run of `CreateOrder` ends in one of three ways. A reply of 201 shows a new pending order
  -- of the caller with the items and the address asked for and the sum of its items as the total;
  -- it is stored under a new id, and the stock of each record is lower by just the units in it. A
  -- refusal is 401, 404 or 409: no order is stored and no stock has gone up. A failed store call
  -- leaves one of these two. The quantities are positive and records stand under their own ids.
  pub create_order-Creates :
      ArePositive req.items
      → IsKeyed d
      → Ensures (create_order pf r (ok req)) d (Creates pf r req d)
  unfolding create_order get_user_id new_order
  create_order-Creates p k = elim (Bool-cases (r.claims.subject == "")) [
    | inl e ↦ rw e (inl refl, ((λ j. omega arith), refl, refl))
    | inr e ↦ rw e (
        always_seq (reserve_all req.items) _ d (ReservedAll req.items d) _
          (reserve_all-ReservedAll req.items d p k) place)
  ]
