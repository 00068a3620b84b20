-- ===== src/Concurrent/Lifecycle.antt =====
-- A stored order while the application serves any requests at the same time (app/server.go,
-- handlers/order.go).
use zerohttp_example.Base.{
  String, ◌≡◌, ◌≢◌, refl, sym, ap, subst, ◌∙◌, ◌⊎◌, inl, inr, Bool-cases, ◌==◌, some, List, All,
  eq_iff, some-injective,
}
use zerohttp_example.Base.Int.{ℤ}
use zerohttp_example.Http.{Request}
use zerohttp_example.Models.{Order, Time, status_pending, status_cancelled}
use zerohttp_example.Models.Platform.{Platform}
use zerohttp_example.Store.Spec.{Db, with_order}
use zerohttp_example.Store.Keyed.{IsWellKeyed, StandsUnder, put-StandsUnder}
use zerohttp_example.Handlers.Order.Cancel.{cancelled}
use zerohttp_example.App.Routes.{Route, Zerohttp, Binding, setup_routes}
use zerohttp_example.Concurrent.{Pool, Runs}
use zerohttp_example.Concurrent.Regime.{Regime}
use zerohttp_example.Concurrent.Regime.Upholds.{Upholds, Runs-Inv}
use zerohttp_example.Concurrent.Obeys.{any_count, any_request, Tolerates}
use zerohttp_example.Concurrent.Served.{any_request-Binds, IsPlain, served, served-Obeys}
use mathlib.Core.List.{Memᴰ}

-- The order is as it was or, if it was pending, cancelled.
abbrev pub Follows : Order → Order → Type 0
Follows x y = (y ≡ x) ⊎ ((x.status ≡ status_pending) × (t : Time) × (y ≡ cancelled x t))

-- The rules that guard the order `x` under the id `k`.
abbrev keeping : String → Order → Regime
keeping k x = record {
  IsNew = λ r. r ≢ k;
  SeenUser = λ u. Unit {0};
  SavedUser = λ u. Unit {0};
  SeenRecord = λ x. Unit {0};
  SavedRecord = λ x. Unit {0};
  SeenOrder = λ y. y.id ≡ k → Follows x y;
  SavedOrder = λ o. o.id ≡ k → (x.status ≡ status_pending) × (t : Time) × (o ≡ cancelled x t);
  Taken = λ q. Unit {0};
}

-- What becomes of the order from `d` to `e`: nothing, or it is cancelled.
abbrev Moves : String → Order → Db → Db → Type 0
Moves k x d e =
    (e.orders k ≡ d.orders k)
    ⊎ ((x.status ≡ status_pending) × (t : Time) × (e.orders k ≡ some (cancelled x t)))

-- Orders stand under their ids, and under `k` one that follows `x`.
abbrev Stands : String → Order → Db → Type 0
Stands k x d =
    StandsUnder (λ (o : Order). o.id) d.orders × (y : Order) × (d.orders k ≡ some y) × Follows x y

module _ (k : String) (x : Order) where
  cancelled-Follows :
      (y : Order) (t : Time)
      → Follows x y
      → y.status ≡ status_pending
      → (x.status ≡ status_pending) × (s : Time) × (cancelled y t ≡ cancelled x s)
  cancelled-Follows y t (inl same) p =
      (ap (λ o. o.status) (sym same) ∙ p, t, ap (λ o. cancelled o t) same)
  cancelled-Follows y t (inr (q, s, same)) p = cc

  keeping-Tolerates : Tolerates (keeping k x) any_request
  keeping-Tolerates = record {
    signed_up = λ u n r. tt;
    updated = λ u n a t s. tt;
    deactivated = λ u t s. tt;
    recorded = λ base req f. tt;
    patched = λ pf x req has_body t f s. tt;
    archived = λ x t s. tt;
    stocked = λ x n t s. tt;
    taken = λ is f. any_count is;
    placed = λ o is new p named f c own. absurd (new own);
    withdrawn = λ o t seen p own. cancelled-Follows o t (seen own) p;
  }

  Moves-Stands :
      (d e : Db)
      → StandsUnder (λ (o : Order). o.id) e.orders
      → Stands k x d
      → Moves k x d e
      → Stands k x e
  Moves-Stands d e w (_, y, h, f) (inl m) = (w, y, m ∙ h, f)
  Moves-Stands d e w s (inr (p, t, m)) = (w, cancelled x t, m, inr (p, t, refl))

  Moves-trans : (d e f : Db) → Moves k x d e → Moves k x e f → Moves k x d f
  Moves-trans d e f m (inr n) = inr n
  Moves-trans d e f (inl m) (inl n) = inl (n ∙ m)
  Moves-trans d e f (inr (p, t, m)) (inl n) = inr (p, t, n ∙ m)

  with_order-Moves :
      (o : Order) (d : Db)
      → (o.id ≡ k → (x.status ≡ status_pending) × (t : Time) × (o ≡ cancelled x t))
      → Moves k x d (with_order d o)
  with_order-Moves o d f = elim (Bool-cases (k == o.id)) [
    | inl e ↦
        let (pending, t, same) = f (sym ((eq_iff k o.id).0 e)) in
        inr (pending, t, rw e (ap some same))
    | inr e ↦ inl (rw e refl)
  ]

  -- From `d` on the order has moved, and it stands.
  abbrev Inv : Db → Db → Type 0
  Inv d e = Stands k x e × Moves k x d e

  Inv-next :
      (d e f : Db) → StandsUnder (λ (o : Order). o.id) f.orders → Inv d e → Moves k x e f → Inv d f
  Inv-next d e f w (s, m) n = (Moves-Stands e f w s n, Moves-trans d e f m n)

  keeping-Upholds : (d : Db) → Upholds (keeping k x) (Inv d)
  keeping-Upholds d = record {
    new = λ e r i u o own. cc (i.0.2, ap e.orders own, o);
    seen_user = λ e j u i h. tt;
    seen_order = λ e j o i h own.
        let (keyed, y, stored, follows) = i.0 in
        subst (Follows x)
          (some-injective y o (sym stored ∙ ap e.orders (sym own ∙ keyed j o h) ∙ h)) follows;
    saved_user = λ e u i s. i;
    saved_order = λ e o i s.
        Inv-next d e (with_order e o) (put-StandsUnder (λ y. y.id) e.orders o.id o refl i.0.0) i
          (with_order-Moves o e s);
    seen_record = λ e k x i h. tt;
    saved_record = λ e x i s. i;
    took = λ e k x q t i h. i;
  }

-- What becomes of the order `x` by two moments, one after the other.
abbrev pub Lives : String → Order → Db → Db → Type 0
Lives k x e f =
    (y : Order) × (z : Order) × (e.orders k ≡ some y)
    × (f.orders k ≡ some z)
    × Follows x y
    × Follows x z
    × (y.status ≡ status_cancelled → z.status ≡ status_cancelled)

Moves-Lives :
    (k : String) (x : Order) (e f : Db)
    → Stands k x e
    → Stands k x f
    → Moves k x e f
    → Lives k x e f
Moves-Lives k x e f (_, y, h, a) (_, z, g, b) (inl m) =
    let same : y ≡ z = some-injective y z (sym h ∙ sym m ∙ g) in
    (y, z, h, g, a, b, λ c. ap (λ o. o.status) (sym same) ∙ c)
Moves-Lives k x e f (_, y, h, a) (_, z, g, b) (inr (p, t, m)) =
    let same : cancelled x t ≡ z = some-injective (cancelled x t) z (sym m ∙ g) in
    (y, z, h, g, a, b, λ c. ap (λ o. o.status) (sym same))

module _ (pf : Platform) (z : Zerohttp) (b : Binding) (ttl : ℤ) (plain : IsPlain z) where
  -- An order leads its life whatever the application serves. While it serves any requests to any of
  -- its routes at the same time, however their calls interleave and whichever of them fail: an order
  -- that was stored when they began stands, at any two later moments, under its id as it was, or
  -- with nothing changed but that it is cancelled and when it was updated, and that only if it was
  -- pending; and once cancelled it stays so. Ids are keys at the beginning, and what zerohttp gives
  -- passes requests on and makes no call that writes anything.
  pub Runs-Lives :
      (reqs : List (Route × Request)) (k : String) (x : Order) {d e f : Db} {qs rs : Pool}
      {log more : List Order}
      → All (λ q. Memᴰ q.0 (setup_routes pf z b ttl)) reqs
      → IsWellKeyed d
      → d.orders k ≡ some x
      → Runs d (served reqs) e qs log
      → Runs e qs f rs more
      → Lives k x e f
  Runs-Lives reqs k x {d = d} {e = e} {f = f} m w h r r' =
      let g = keeping k x in
      let obey =
        served-Obeys g pf z b ttl plain (any_request-Binds b) (keeping-Tolerates k x) reqs m in
      let (obey', i) =
        Runs-Inv g (Inv k x d) (keeping-Upholds k x d) d ((w.orders, x, h, inl refl), inl refl) obey
          r in
      let (_, i') = Runs-Inv g (Inv k x e) (keeping-Upholds k x e) e (i.0, inl refl) obey' r' in
      Moves-Lives k x e f i.0 i'.0 i'.1
