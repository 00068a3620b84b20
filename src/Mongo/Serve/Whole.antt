-- ===== src/Mongo/Serve/Whole.antt =====
-- The whole application over `MongoStore` (app/server.go, store/mongo.go).
use zerohttp_example.Base.{
  ℕ, String, ◌≡◌, ok, ◌^◌, ◌-◌, List, [], ◌∷◌, All, Option, none, some, Result, err, arith,
}
use zerohttp_example.Base.Int.{ℤ, pos, ◌≤ℤ◌}
use zerohttp_example.Http.{Request}
use zerohttp_example.Models.{User, Order}
use zerohttp_example.Models.Platform.{Platform}
use zerohttp_example.Api.{OrderItemRequest}
use zerohttp_example.Store.{
  Call, Reply, get_user, save_user, get_user_by_email, get_record, save_record, decrement_stock,
  get_order, save_order, new_xid,
}
use zerohttp_example.Store.Spec.{Db, with_user, with_record, with_order}
use zerohttp_example.Store.Keyed.{IsWellKeyed}
use zerohttp_example.Prog.{Prog, ret, stop, call}
use zerohttp_example.Prog.Run.{Server, Calls}
use zerohttp_example.Handlers.Order.Reserve.{ArePositive}
use zerohttp_example.App.Routes.{Route, Zerohttp, Binding, setup_routes}
use zerohttp_example.Concurrent.{Pool}
use zerohttp_example.Concurrent.Regime.{Regime, IfFound, Duties, Obeys}
use zerohttp_example.Concurrent.Obeys.{Validity, any_request, Tolerates}
use zerohttp_example.Concurrent.Served.{IsPlain, Binds, served, served-Obeys}
use zerohttp_example.Concurrent.Schedule.{turns, Reached, turns-Reached}
use zerohttp_example.Concurrent.Lifecycle.{Lives, Runs-Lives}
use zerohttp_example.Concurrent.Logins.{ComesFrom, Runs-ComesFrom}
use zerohttp_example.Mongo.{MongoStore, Update}
use zerohttp_example.Mongo.Queries.{Query}
use zerohttp_example.Mongo.Driver.{Behaves, user_fields, record_fields, order_fields, Updates}
use zerohttp_example.Mongo.Refines.{HasCount}
use zerohttp_example.Mongo.Serve.{AreInts, serve, Complements, serve-Keeps}
use mathlib.Core.List.{Memᴰ}

-- Only an `int` that is not negative is taken from a stock.
abbrev counting : Regime
counting = record {
  IsNew = λ r. Unit {0};
  SeenUser = λ u. Unit {0};
  SavedUser = λ u. Unit {0};
  SeenRecord = λ x. Unit {0};
  SavedRecord = λ x. Unit {0};
  SeenOrder = λ o. Unit {0};
  SavedOrder = λ o. Unit {0};
  Taken = λ q. (pos 0 ≤ℤ q) × (q ≤ℤ pos (2 ^ 63 - 1));
}

any_found : {A : Type 0} (r : Result (Option A)) → IfFound (λ _. Unit {0}) r
any_found (ok (some a)) = tt
any_found (ok none) = tt
any_found (err t) = tt

Duties-HasCount :
    (c : Call) (K : Reply c → Type 0) → Duties counting c K → HasCount c × ((r : Reply c) → K r)
Duties-HasCount new_xid K h = (tt, λ r. h r tt)
Duties-HasCount (get_user id) K h = (tt, λ r. h r (any_found r))
Duties-HasCount (get_user_by_email m) K h = (tt, λ r. h r (any_found r))
Duties-HasCount (save_user u) K h = (tt, h.1)
Duties-HasCount (get_record id) K h = (tt, λ r. h r (any_found r))
Duties-HasCount (save_record x) K h = (tt, h.1)
Duties-HasCount (get_order id) K h = (tt, λ r. h r (any_found r))
Duties-HasCount (save_order o) K h = (tt, h.1)
Duties-HasCount (decrement_stock id q) K h = h
Duties-HasCount c K h = (tt, h)

Obeys-Calls : {A : Type 0} (p : Prog A) → Obeys counting p → Calls HasCount p
Obeys-Calls (ret a) h = tt
Obeys-Calls (stop o) h = tt
Obeys-Calls (call c f) h = let d = Duties-HasCount c _ h in (d.0, λ r. Obeys-Calls (f r) (d.1 r))

All-Calls : (ps : Pool) → All (Obeys counting) ps → All (Calls HasCount) ps
All-Calls [] h = tt
All-Calls (p ∷ ps) (h, hs) = (Obeys-Calls p h, All-Calls ps hs)

-- Orders are bound with quantities that are positive and `int`s.
abbrev pub counted_orders : Validity
counted_orders = record any_request { FineItems = λ is. ArePositive is × AreInts is }

counted-taken :
    (is : List OrderItemRequest)
    → ArePositive is × AreInts is
    → All (λ i. (pos 0 ≤ℤ i.quantity) × (i.quantity ≤ℤ pos (2 ^ 63 - 1))) is
counted-taken [] f = tt
counted-taken (i ∷ is) (p, q) =
    let positive = p.0 in ((omega arith, q.0), counted-taken is (p.1, q.1))

counting-Tolerates : Tolerates counting counted_orders
counting-Tolerates = record {
  signed_up = λ u n r. tt;
  updated = λ u n a t s. tt;
  deactivated = λ u t s. tt;
  recorded = λ base req f. tt;
  patched = λ pf x req has_body t f s. tt;
  archived = λ x t s. tt;
  stocked = λ x n t s. tt;
  taken = counted-taken;
  placed = λ o is new p named f c. tt;
  withdrawn = λ o t s p. tt;
}

module _ {W : Type 0} (s : MongoStore W) (pf : Platform) (view : W → Db) (env : Server W)
    (users : Behaves user_fields pf.float_gt s.users view (λ d. d.users) with_user (λ u. u.id))
    (records : Behaves record_fields pf.float_gt s.records view
      (λ d. d.records)
      with_record
      (λ r. r.id))
    (orders : Behaves order_fields pf.float_gt s.orders view (λ d. d.orders) with_order (λ o. o.id))
    (updates : (q : Query) (u : Update) (w : W)
      → Updates pf.float_gt
          (view w)
          q
          u
          (s.records.find_one_and_update q u w).0
          (view (s.records.find_one_and_update q u w).1))
    (rest : Complements s pf view env) (z : Zerohttp) (b : Binding) (ttl : ℤ) (plain : IsPlain z)
    (binds : Binds b counted_orders) where
  abbrev After : List ℕ → Pool → W → Type 0
  After schedule ps w =
      Reached (serve s pf env) view IsWellKeyed HasCount
        (serve-Keeps s pf view env users records orders updates rest) w ps
        (turns (serve s pf env) schedule ps w)

  served-After :
      (reqs : List (Route × Request)) (schedule : List ℕ) (w : W)
      → All (λ q. Memᴰ q.0 (setup_routes pf z b ttl)) reqs
      → IsWellKeyed (view w)
      → After schedule (served reqs) w
  served-After reqs schedule w m k =
      turns-Reached (serve s pf env) view IsWellKeyed HasCount
        (serve-Keeps s pf view env users records orders updates rest) schedule (served reqs) w k
        (All-Calls (served reqs)
          (served-Obeys counting pf z b ttl plain binds counting-Tolerates reqs m))

  -- The application on MongoDB keeps its orders and its accounts. Serve any requests to any of its
  -- routes over one `MongoStore` by any schedule, one call of one handler at a time: an order that
  -- was stored at the beginning stands at any two later moments as it was, or cancelled if it was
  -- pending, and once cancelled it stays so; and every account that is there then has the email, the
  -- password and the role that it had at the beginning, and stays deactivated if it was, or it is new
  -- and its role is "user". Orders bind with quantities that are positive and `int`s, documents stand
  -- under their own ids, what zerohttp gives passes requests on and makes no call that writes
  -- anything, and the driver, the clock and `xid.New` behave as documented.
  pub turns-Lives :
      (reqs : List (Route × Request)) (first next : List ℕ) (w : W)
      → All (λ q. Memᴰ q.0 (setup_routes pf z b ttl)) reqs
      → IsWellKeyed (view w)
      → let m = turns (serve s pf env) first (served reqs) w in
        let n = turns (serve s pf env) next m.pool m.world in
        ((j : String) (x : Order)
          → (view w).orders j ≡ some x
          → Lives j x (view m.world) (view n.world))
        × ((j : String) (u : User)
            → (view m.world).users j ≡ some u
            → (u.id ≡ j) × ComesFrom (view w) u)
  turns-Lives reqs first next w m k =
      let at = turns (serve s pf env) first (served reqs) w in
      let reached = served-After reqs first w m k in
      let on =
        turns-Reached (serve s pf env) view IsWellKeyed HasCount
          (serve-Keeps s pf view env users records orders updates rest) next at.pool at.world
          reached.inv reached.can in
      (
        λ j x stored. Runs-Lives pf z b ttl plain reqs j x m k stored reached.runs on.runs,
        Runs-ComesFrom pf z b ttl plain reqs m k reached.runs,
      )
