-- ===== src/Mongo/Serve.antt =====
-- The handlers over `MongoStore` (handlers/order.go, store/mongo.go).
pub mod Whole
pub mod Search
use zerohttp_example.Base.{
  ℕ, String, ok, not, ◌==◌, List, [], ◌∷◌, All, Option, none, some, arith, ◌-◌, ◌^◌, ◌≡◌, refl,
}
use zerohttp_example.Base.Int.{pos, ◌+ℤ◌, ◌≤ℤ◌}
use zerohttp_example.Http.{Request}
use zerohttp_example.Models.New.{new_order, new_base}
use zerohttp_example.Models.{Time}
use zerohttp_example.Models.Platform.{Platform}
use zerohttp_example.Api.{OrderItemRequest, CreateOrderRequest}
use zerohttp_example.Store.{Call, Reply, now}
use zerohttp_example.Store.Spec.{Db, Spec, with_user, with_record, with_order}
use zerohttp_example.Store.Keyed.{IsWellKeyed, Spec-IsWellKeyed}
use zerohttp_example.Prog.{try, found, refuse_if}
use zerohttp_example.Prog.Always.{outcome}
use zerohttp_example.Prog.Run.{
  Server, run, Calls, run-Always, Calls-bind, Calls-try, Calls-found, Calls-refuse_if,
}
use zerohttp_example.Prog.Run
use zerohttp_example.Handlers.Middleware.{get_user_id}
use zerohttp_example.Handlers.Order.{reserve, reserve_all, create_order}
use zerohttp_example.Handlers.Order.Reserve.{ArePositive}
use zerohttp_example.Handlers.Order.Create.{Creates, create_order-Creates}
use zerohttp_example.Handlers.Order.Stock.{stock_of}
use zerohttp_example.Concurrent.{sold}
use zerohttp_example.Concurrent.Balance.{IsStocked}
use zerohttp_example.Concurrent.Oversell.{order_handlers, no_oversell}
use zerohttp_example.Concurrent.Schedule.{turns, turns-Reached}
use zerohttp_example.Mongo.{MongoStore, Update}
use zerohttp_example.Mongo.Queries.{Query}
use zerohttp_example.Mongo.Driver.{Behaves, user_fields, record_fields, order_fields, Updates}
use zerohttp_example.Mongo.Refines
use zerohttp_example.Mongo.Refines.{answer, HasCount, answer-Keeps}

abbrev pub or_else : {A : Type 0} → Option A → A → A
or_else none r = r
or_else (some a) r = a

-- The calls of the storage interface go to the store, the others to `env`.
abbrev pub serve : {W : Type 0} → MongoStore W → Platform → Server W → Server W
serve s pf env c w = or_else (answer s pf (env now w).0 c w) (env c w)

-- At most as many units as an `int` holds.
abbrev pub AreInts : List OrderItemRequest → Type 0
AreInts = All (λ i. i.quantity ≤ℤ pos (2 ^ 63 - 1))

reserve-Calls :
    (i : OrderItemRequest)
    → pos 1 ≤ℤ i.quantity
    → i.quantity ≤ℤ pos (2 ^ 63 - 1)
    → Calls HasCount (reserve i)
unfolding reserve
reserve-Calls i p q = (
  tt,
  λ stored. Calls-bind HasCount (try stored) _ (Calls-try HasCount stored) λ o.
      Calls-bind HasCount (found o 404 _) _ (Calls-found HasCount o 404 _) λ r.
        Calls-bind HasCount (refuse_if r.archived 409 _) _
          (Calls-refuse_if HasCount r.archived 409 _)
          λ _. (
            (omega arith, q),
            λ taken. Calls-bind HasCount (try taken) _ (Calls-try HasCount taken) λ success.
                Calls-bind HasCount (refuse_if (not success) 409 _) _
                  (Calls-refuse_if HasCount (not success) 409 _) λ _. tt,
          ),
)

reserve_all-Calls :
    (is : List OrderItemRequest) → ArePositive is → AreInts is → Calls HasCount (reserve_all is)
unfolding reserve_all
reserve_all-Calls [] p q = tt
reserve_all-Calls (i ∷ is) p q =
    Calls-bind HasCount (reserve i) _ (reserve-Calls i p.0 q.0)
      λ x. Calls-bind HasCount (reserve_all is) _ (reserve_all-Calls is p.1 q.1) λ xs. tt

create_order-Calls :
    (pf : Platform) (r : Request) (req : CreateOrderRequest)
    → ArePositive req.items
    → AreInts req.items
    → Calls HasCount (create_order pf r (ok req))
unfolding create_order get_user_id new_order new_base
create_order-Calls pf r req p q =
    Calls-bind HasCount (refuse_if (r.claims.subject == "") 401 "authentication required") _
      (Calls-refuse_if HasCount (r.claims.subject == "") 401 "authentication required")
      λ _. Calls-bind HasCount (reserve_all req.items) _ (reserve_all-Calls req.items p q) λ xs. (
        tt,
        λ id. (
          tt,
          λ created. (
            tt,
            λ updated.
                (tt, λ saved. Calls-bind HasCount (try saved) _ (Calls-try HasCount saved) λ _. tt),
          ),
        ),
      )

order_handlers-Calls :
    (pf : Platform) (reqs : List (Request × CreateOrderRequest))
    → All (λ q. ArePositive q.1.items) reqs
    → All (λ q. AreInts q.1.items) reqs
    → All (Calls HasCount) (order_handlers pf reqs)
order_handlers-Calls pf [] p q = tt
order_handlers-Calls pf (r ∷ rs) p q =
    (create_order-Calls pf r.0 r.1 p.0 q.0, order_handlers-Calls pf rs p.1 q.1)

-- The clock, `xid.New` and the libraries answer as documented the calls that the store does not.
abbrev pub Complements : {W : Type 0} → MongoStore W → Platform → (W → Db) → Server W → Type 0
Complements {W = W} s pf view env =
    (c : Call) (t : Time) (w : W)
    → answer s pf t c w ≡ none
    → Spec c (view w) (env c w).0 (view (env c w).1)

module _ {W : Type 0} (s : MongoStore W) (pf : Platform) (view : W → Db) (env : Server W)
    (users : Behaves user_fields pf.float_gt s.users view (λ d. d.users) with_user (λ u. u.id))
    (records : Behaves record_fields pf.float_gt s.records view
      (λ d. d.records)
      with_record
      (λ r. r.id))
    (orders : Behaves order_fields pf.float_gt s.orders view (λ d. d.orders) with_order (λ o. o.id))
    (updates : (q : Query) (u : Update) (w : W)
      → Updates pf.float_gt
          (view w)
          q
          u
          (s.records.find_one_and_update q u w).0
          (view (s.records.find_one_and_update q u w).1))
    (rest : Complements s pf view env) where
  serves :
      (c : Call) (w : W) (a : Option (Reply c × W))
      → Refines.Keeps view c w a
      → (a ≡ none → Spec c (view w) (env c w).0 (view (env c w).1))
      → Spec c (view w) (or_else a (env c w)).0 (view (or_else a (env c w)).1)
  serves c w none h k = k refl
  serves c w (some a) h k = h

  pub serve-Keeps : Run.Keeps (serve s pf env) view IsWellKeyed HasCount
  serve-Keeps c w k h =
      let t = (env now w).0 in
      let allowed =
        serves c w (answer s pf t c w)
          (answer-Keeps s pf view users records orders updates c t w k h) (rest c t w) in
      (allowed, Spec-IsWellKeyed c (view w) _ _ allowed k)

  -- Run over `MongoStore` and the driver, `CreateOrder` comes to an end on every request that has
  -- been bound, and this end is one of those that `Creates` allows for the databases that the
  -- collections show before and after: a placed order, a refusal, or a failed call. The quantities
  -- are positive and `int`s, documents stand under their own ids, and the driver, the clock and
  -- `xid.New` behave as documented.
  pub run-create_order-Creates :
      (r : Request) (req : CreateOrderRequest) (w : W)
      → ArePositive req.items
      → AreInts req.items
      → IsWellKeyed (view w)
      → let done = run (serve s pf env) (create_order pf r (ok req)) w in
        Creates pf r req (view w) (outcome done.0) (view done.1)
  run-create_order-Creates r req w p q k =
      run-Always (serve s pf env) view IsWellKeyed HasCount (create_order pf r (ok req)) w
        (λ f. Creates pf r req (view w) (outcome f)) serve-Keeps k (create_order-Calls pf r req p q)
        (create_order-Creates pf r req (view w) p k.records)

  -- A shop on MongoDB never sells more than it has. Run any number of `CreateOrder` handlers over one
  -- `MongoStore` by any schedule, one call of one of them at a time: the units of a record in all
  -- orders written so far, with what the collections then show in stock, are no more than the stock
  -- that they showed at the beginning, and no stock is below zero. The quantities are positive and
  -- `int`s, documents stand under their own ids, and the driver, the clock and `xid.New` behave as
  -- documented.
  pub turns-no_oversell :
      (reqs : List (Request × CreateOrderRequest)) (schedule : List ℕ) (w : W)
      → All (λ q. ArePositive q.1.items) reqs
      → All (λ q. AreInts q.1.items) reqs
      → IsWellKeyed (view w)
      → IsStocked (view w)
      → let m = turns (serve s pf env) schedule (order_handlers pf reqs) w in
        ((j : String) → sold j m.log +ℤ stock_of (view m.world) j ≤ℤ stock_of (view w) j)
        × IsStocked (view m.world)
  turns-no_oversell reqs schedule w p q k stocked =
      no_oversell pf reqs (view w) p k.records stocked
        (turns-Reached (serve s pf env) view IsWellKeyed HasCount serve-Keeps schedule
          (order_handlers pf reqs) w k (order_handlers-Calls pf reqs p q)).runs
