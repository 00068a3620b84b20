-- ===== src/Concurrent/Twice.antt =====
-- Two cancellations of one order at the same time (`CancelOrder` in handlers/order.go).
use zerohttp_example.Base.{
  String, ◌≡◌, ◌≢◌, refl, sym, ap, subst, ◌∙◌, inl, inr, Bool-cases, ◌==◌, Option, none, some, List,
  [], ◌∷◌, eq_iff, Result, ok,
}
use zerohttp_example.Base.Int.{◌+ℤ◌, ◌≤ℤ◌, int_laws}
use zerohttp_example.Http.{Request, Outcome, no_content}
use zerohttp_example.Models.{
  Order, OrderItem, Record, Time, status_pending, status_cancelled, touch,
}
use zerohttp_example.Store.{Reply, get_order, save_order, now}
use zerohttp_example.Store.Spec.{Db, put, with_order}
use zerohttp_example.Store.Keyed.{IsWellKeyed}
use zerohttp_example.Prog.{Prog, ret, call, Flow, ran, stopped, ◌>>=◌, ◌>>◌, ask, try}
use zerohttp_example.Prog.Sometimes.{Sometimes, sometimes_seq, always-sometimes}
use zerohttp_example.Handlers.Order.{cancel_order, restore_stock, give_back, is_stranger}
use zerohttp_example.Handlers.Order.Access.{MaySee, is_stranger-MaySee}
use zerohttp_example.Handlers.Order.Stock.{units, IsKeyed}
use zerohttp_example.Handlers.Order.Restore.{
  Gained, Fits, AreCounts, Restored, Gained-trans, restore_stock-Restored, max_int, min_int,
  fits_of_gained, units_nonneg,
}
use zerohttp_example.Handlers.Order.Cancel.{cancelled}
use zerohttp_example.Concurrent.Keyed.{Runs-IsWellKeyed}
use text.Mathlib.TextPositions.{eq_refl}
use zerohttp_example.Concurrent.Turns.{ended, Sometimes-Runs}
use zerohttp_example.Concurrent.{Pool, here, there, Runs, start, later}

give_back-Sometimes :
    (o : Option Record) (x : OrderItem) (d : Db) → Sometimes (give_back o x) d (λ v e. v ≡ ran tt)
unfolding give_back
give_back-Sometimes none x d = refl
give_back-Sometimes (some r) x d = (0, d, refl, (ok tt, _, refl, refl))

restore_stock-Sometimes :
    (xs : List OrderItem) (d : Db) → Sometimes (restore_stock xs) d (λ v e. v ≡ ran tt)
unfolding restore_stock
restore_stock-Sometimes [] d = refl
restore_stock-Sometimes (x ∷ xs) d =
    let stored = d.records x.record_id in
    (
      ok stored,
      d,
      (refl, refl),
      sometimes_seq (give_back stored x) _ d _ _ (give_back-Sometimes stored x d)
          λ v e h. rw h (restore_stock-Sometimes xs e),
    )

-- `CancelOrder` after the order has been read and found pending.
abbrev cancelling : Order → Prog Outcome
cancelling x = do
  restore_stock x.items
  updated_at ← ask now
  try (← ask (save_order (record x { base = touch x.base updated_at; status = status_cancelled })))
  ret no_content

-- `CancelOrder` begins with the read, and goes on like this if the order may be cancelled.
cancel_order-Reads :
    (r : Request) (x : Order)
    → r.path_value "id" ≢ ""
    → MaySee r x
    → x.status ≡ status_pending
    → (k : Reply (get_order "") → Prog Outcome) × (cancel_order r
        ≡ call (get_order (r.path_value "id")) k)
      × (k (ok (some x)) ≡ cancelling x)
unfolding cancel_order
cancel_order-Reads r x named may pending = elim (Bool-cases (r.path_value "id" == "")) [
  | inl e ↦ absurd (named ((eq_iff _ _).0 e))
  | inr e ↦ elim (Bool-cases (is_stranger r x)) [
    | inl s ↦ absurd ((is_stranger-MaySee r x).1 s may)
    | inr s ↦ rw e (_, refl, rw (s, (eq_iff _ _).1 pending) refl)
  ]
]

-- The order is cancelled, and each record has the units of it back.
abbrev GivesBack : Order → Db → Flow Outcome → Db → Type 0
GivesBack x d v e =
    (v ≡ ran no_content)
    × ((j : String) → Gained (d.records j) (e.records j) (units j x.items))
    × (t : Time) × (e.orders ≡ (with_order d (cancelled x t)).orders)

cancelling-Sometimes :
    (x : Order) (d : Db)
    → IsKeyed d
    → Fits d x.items
    → AreCounts x.items
    → Sometimes (cancelling x) d (GivesBack x d)
cancelling-Sometimes x d k f c =
    sometimes_seq (restore_stock x.items) _ d (λ v e. Restored x.items d v e × (v ≡ ran tt)) _
      (always-sometimes (restore_stock x.items) d _ _ (restore_stock-Restored x.items d k f c)
        (restore_stock-Sometimes x.items d))
      (elim [
        | ran _ ↦ λ e h. (
          0,
          e,
          refl,
          (ok tt, _, refl, (refl, h.0.0, 0, ap (λ m. put m x.id (cancelled x 0)) h.0.2)),
        )
        | stopped o ↦ λ e h. absurd (cc h.1)
      ])

-- With the units of the order given back twice, each stock is still an `int`.
abbrev pub FitsTwice : Db → Order → Type 0
FitsTwice d x =
    (j : String) (r : Record)
    → d.records j ≡ some r
    → (min_int ≤ℤ r.stock) × (r.stock +ℤ (units j x.items +ℤ units j x.items) ≤ℤ max_int)

-- There is a run of the two handlers on which both reply 204 and each record gains the units of `x`
-- twice, `x` being cancelled once.
abbrev pub CanGiveTwice : Request → Request → Db → Order → Type 0
CanGiveTwice r s d x =
    (e : Db) × (log : List Order) × Runs d (cancel_order r ∷ cancel_order s ∷ []) e
      (ret no_content ∷ ret no_content ∷ []) log
    × ((j : String) → Gained (d.records j) (e.records j) (units j x.items +ℤ units j x.items))
    × (t : Time) × (e.orders x.id ≡ some (cancelled x t))

module _ (x : Order) (d : Db) (w : IsWellKeyed d) (c : AreCounts x.items) (f : FitsTwice d x) where
  FitsTwice-Fits : Fits d x.items
  FitsTwice-Fits j r h =
      let (low, high) = f j r h in (low, omega (int_laws, high, units_nonneg j x.items c))

  Gained-Fits :
      (e : Db)
      → ((j : String) → Gained (d.records j) (e.records j) (units j x.items))
      → Fits e x.items
  Gained-Fits e g j r h =
      fits_of_gained (d.records j) r (units j x.items) (units j x.items)
        (subst (λ o. Gained (d.records j) o (units j x.items)) h (g j)) (units_nonneg j x.items c)
        (f j)

  -- Both handlers look the order up.
  both_Read :
      (a b : String) (k l : Result (Option Order) → Prog Outcome)
      → d.orders a ≡ some x
      → d.orders b ≡ some x
      → k (ok (some x)) ≡ cancelling x
      → l (ok (some x)) ≡ cancelling x
      → Runs d
          (call (get_order a) k ∷ call (get_order b) l ∷ [])
          d
          (cancelling x ∷ cancelling x ∷ [])
          []
  both_Read a b k l ha hb goes goes' =
      let ps = call (get_order a) k ∷ call (get_order b) l ∷ [] in
      let first : Runs d ps d (k (ok (some x)) ∷ call (get_order b) l ∷ []) [] =
        later start (here {c = get_order a} {k = k} (ok (some x)) d (sym ha, refl)) in
      subst (λ p. Runs d ps d (p ∷ cancelling x ∷ []) []) goes
        (subst (λ p. Runs d ps d (k (ok (some x)) ∷ p ∷ []) []) goes'
          (later first (there (here {c = get_order b} {k = l} (ok (some x)) d (sym hb, refl)))))

  -- Two cancellations at the same time can give the stock back twice.
  both_GiveBack :
      {ps : Pool} {log : List Order}
      → Runs d ps d (cancelling x ∷ cancelling x ∷ []) log
      → (e : Db) × (more : List Order) × Runs d ps e (ret no_content ∷ ret no_content ∷ []) more
        × ((j : String) → Gained (d.records j) (e.records j) (units j x.items +ℤ units j x.items))
        × (t : Time) × (e.orders x.id ≡ some (cancelled x t))
  both_GiveBack {ps = ps} r =
      let (v, e, log, (done, gain, _, _), r1) =
        Sometimes-Runs (λ p. p ∷ cancelling x ∷ []) (λ c k a d e. here a e) (cancelling x) d
          (GivesBack x d) r (cancelling-Sometimes x d w.records FitsTwice-Fits c) in
      let r1' = subst (λ v. Runs d ps e (ended v ∷ cancelling x ∷ []) log) done r1 in
      let (v', e', log', (done', gain', t, orders), r2) =
        Sometimes-Runs (λ p. ret no_content ∷ p ∷ []) (λ c k a d e s. there (here a e s))
          (cancelling x) e (GivesBack x e) r1'
          (cancelling-Sometimes x e (Runs-IsWellKeyed r1 w).records (Gained-Fits e gain) c) in
      (
        e',
        log',
        subst (λ v. Runs d ps e' (ret no_content ∷ ended v ∷ []) log') done' r2,
        (λ j. Gained-trans (d.records j) (e.records j) (e'.records j) _ _ (gain j) (gain' j)),
        t,
        ap (λ m. m x.id) orders ∙ rw (eq_refl x.id) refl,
      )

  -- Two cancellations of one order at the same time can both succeed, and both give the stock back.
  -- For any two callers who may see a pending order there is an interleaving of their two calls of
  -- `CancelOrder`, in which no store call fails, that answers both with 204 and after which each
  -- stored record has gained twice the units of the order; the order is stored as cancelled. Ids are
  -- keys, the quantities are not negative, and the stocks stay in the range of `int`.
  pub cancel_order-CanGiveTwice :
      (r s : Request)
      → r.path_value "id" ≢ ""
      → s.path_value "id" ≢ ""
      → d.orders (r.path_value "id") ≡ some x
      → d.orders (s.path_value "id") ≡ some x
      → MaySee r x
      → MaySee s x
      → x.status ≡ status_pending
      → CanGiveTwice r s d x
  cancel_order-CanGiveTwice r s nr ns hr hs mr ms pending =
      let (k, begins, goes) = cancel_order-Reads r x nr mr pending in
      let (l, begins', goes') = cancel_order-Reads s x ns ms pending in
      rw (begins, begins')
        (both_GiveBack (both_Read (r.path_value "id") (s.path_value "id") k l hr hs goes goes'))
