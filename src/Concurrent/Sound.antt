-- ===== src/Concurrent/Sound.antt =====
-- The stored orders while the application serves any requests at the same time (app/server.go,
-- handlers/order.go).
use zerohttp_example.Base.{
  String, ◌≡◌, ◌≢◌, refl, subst, ◌⊎◌, inl, inr, Bool-cases, ◌==◌, some, List, [], ◌∷◌, All, ok,
  some-injective,
}
use zerohttp_example.Base.Int.{ℤ, pos, ◌≤ℤ◌}
use zerohttp_example.Http.{Request}
use zerohttp_example.Models.{OrderItem, Order, status_pending, status_cancelled}
use zerohttp_example.Models.Platform.{Platform}
use zerohttp_example.Api.{OrderItemRequest, CreateOrderRequest}
use zerohttp_example.Store.Spec.{Db, with_order}
use zerohttp_example.Handlers.Order.Reserve.{ArePositive}
use zerohttp_example.App.Routes.{Route, Zerohttp, Binding, setup_routes}
use zerohttp_example.Concurrent.{Pool, Runs}
use zerohttp_example.Concurrent.Regime.{Regime}
use zerohttp_example.Concurrent.Regime.Upholds.{Upholds, Runs-Inv}
use zerohttp_example.Concurrent.Obeys.{any_count, any_request, Validity, Counted, Tolerates}
use zerohttp_example.Concurrent.Served.{Binds, IsPlain, served, served-Obeys}
use mathlib.Core.List.{Memᴰ}

-- The order has an owner, positive quantities, and is pending or cancelled.
abbrev pub IsSound : Order → Type 0
IsSound o =
    (o.user_id ≢ "")
    × All (λ x. pos 1 ≤ℤ x.quantity) o.items
    × ((o.status ≡ status_pending) ⊎ (o.status ≡ status_cancelled))

abbrev pub AreSound : Db → Type 0
AreSound d = (k : String) (o : Order) → d.orders k ≡ some o → IsSound o

-- Only sound orders are saved.
abbrev sound : Regime
sound = record {
  IsNew = λ r. Unit {0};
  SeenUser = λ u. Unit {0};
  SavedUser = λ u. Unit {0};
  SeenRecord = λ x. Unit {0};
  SavedRecord = λ x. Unit {0};
  SeenOrder = IsSound;
  SavedOrder = IsSound;
  Taken = λ q. Unit {0};
}

Counted-positive :
    (is : List OrderItemRequest) (xs : List OrderItem)
    → ArePositive is
    → Counted is xs
    → All (λ x. pos 1 ≤ℤ x.quantity) xs
Counted-positive [] [] p c = tt
Counted-positive (i ∷ is) (x ∷ xs) p c = (rw (c.0) (p.0), Counted-positive is xs p.1 c.1)
Counted-positive [] (x ∷ xs) p c = absurd c
Counted-positive (i ∷ is) [] p c = absurd c

abbrev positive_orders : Validity
positive_orders = record any_request { FineItems = ArePositive }

positive_orders-Binds :
    (b : Binding)
    → ((r : Request) (req : CreateOrderRequest)
        → b.create_order_request r ≡ ok req
        → ArePositive req.items)
    → Binds b positive_orders
positive_orders-Binds b bound = record {
  items = bound;
  new_record = λ r req e. tt;
  patch = λ r req e. tt;
}

sound-Tolerates : Tolerates sound positive_orders
sound-Tolerates = record {
  signed_up = λ u n r. tt;
  updated = λ u n a t s. tt;
  deactivated = λ u t s. tt;
  recorded = λ base req f. tt;
  patched = λ pf x req has_body t f s. tt;
  archived = λ x t s. tt;
  stocked = λ x n t s. tt;
  taken = λ is f. any_count is;
  placed = λ o is new p named f c. (named, Counted-positive is o.items f c, inl p);
  withdrawn = λ o t s p. (s.0, s.1, inr refl);
}

with_order-AreSound : (d : Db) (o : Order) → AreSound d → IsSound o → AreSound (with_order d o)
with_order-AreSound d o h s k y e = elim (Bool-cases (k == o.id)) [
  | inl same ↦ subst IsSound (some-injective o y (rw same at e)) s
  | inr other ↦ h k y (rw other at e)
]

sound-Upholds : Upholds sound AreSound
sound-Upholds = record {
  new = λ d r i u o. tt;
  seen_user = λ d k u i h. tt;
  seen_order = λ d k o i h. i k o h;
  saved_user = λ d u i s. i;
  saved_order = λ d o i s. with_order-AreSound d o i s;
  seen_record = λ e k x i h. tt;
  saved_record = λ e x i s. i;
  took = λ e k x q t i h. i;
}

module _ (pf : Platform) (z : Zerohttp) (b : Binding) (ttl : ℤ) (plain : IsPlain z) where
  -- No request brings the orders into disorder. While the application serves any requests to any of
  -- its routes at the same time, however their calls interleave and whichever of them fail: if every
  -- stored order has an owner, positive quantities, and is pending or cancelled at the beginning,
  -- then every stored order has and is that at every moment. Requests for orders bind only with
  -- positive quantities, and what zerohttp gives passes requests on and makes no call that writes anything.
  pub Runs-AreSound :
      (reqs : List (Route × Request)) {d e : Db} {qs : Pool} {log : List Order}
      → ((r : Request) (req : CreateOrderRequest)
          → b.create_order_request r ≡ ok req
          → ArePositive req.items)
      → All (λ q. Memᴰ q.0 (setup_routes pf z b ttl)) reqs
      → AreSound d
      → Runs d (served reqs) e qs log
      → AreSound e
  Runs-AreSound reqs {d = d} bound m h r =
      (Runs-Inv sound AreSound sound-Upholds d h
        (served-Obeys sound pf z b ttl plain (positive_orders-Binds b bound) sound-Tolerates reqs m)
        r).1
