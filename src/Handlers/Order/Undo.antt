-- ===== src/Handlers/Order/Undo.antt =====
-- `CreateOrder` and then `CancelOrder` (handlers/order.go).
use zerohttp_example.Base.{
  String, Option, ◌≡◌, ◌≢◌, refl, inl, inr, Bool-cases, ◌==◌, some, none, List, [], ◌∷◌, arith,
  eq_iff, ok, sym, ap, subst, true, false, ◌∙◌, some-injective,
}
use zerohttp_example.Base.Int.{ℤ, pos, ◌+ℤ◌, ◌≤ℤ◌}
use zerohttp_example.Http.{Request, Outcome, rendered, paged, problem, failed, no_content, panicked}
use zerohttp_example.Http
use zerohttp_example.Models.{OrderItem, Order, status_pending, Record, Time}
use zerohttp_example.Models.Platform.{Platform}
use zerohttp_example.Api.{CreateOrderRequest, OrderItemRequest, new_order_response}
use zerohttp_example.Store.Spec.{Db, with_order}
use zerohttp_example.Store.Rules.{on_get_record, on_get_order, on_pure, on_write}
use zerohttp_example.Prog.{ran, stopped}
use zerohttp_example.Prog.Always.{Ensures, outcome, always_both, always_mono}
use zerohttp_example.Prog.Succeeds.{
  IsRan, Succeeds, NoErr, succeeds_seq, succeeds_mono, succeeds_both, always-succeeds,
}
use zerohttp_example.Handlers.Order.{
  create_order, cancel_order, restore_stock, give_back, is_stranger,
}
use zerohttp_example.Handlers.Order.Access.{MaySee, is_stranger-MaySee}
use zerohttp_example.Handlers.Order.Stock.{stock_of, stock_or_zero, units, IsKeyed}
use zerohttp_example.Handlers.Order.Reserve.{ArePositive, asked, listed}
use zerohttp_example.Handlers.Order.Create.{Creates, IsPlaced, create_order-Creates}
use zerohttp_example.Handlers.Order.Restore.{max_int, Fits, AreCounts, Gained}
use zerohttp_example.Handlers.Order.Cancel.{cancelled, Cancels, cancel_order-Cancels}
use zerohttp_example.Concurrent.Duties.{create_order-Holds}
use zerohttp_example.Concurrent.Balance.{IsStocked}
use text.Mathlib.TextPositions.{eq_refl}
use zerohttp_example.Concurrent.Alone.{IsKept, Holds-IsStocked}

abbrev IsDone : Outcome → Type 0
IsDone no_content = Unit {0}
IsDone o = ⊥

restore_stock-IsRan :
    (xs : List OrderItem) (d : Db) → Succeeds (restore_stock xs) d (λ f _. IsRan f)
unfolding restore_stock give_back
restore_stock-IsRan [] d = tt
restore_stock-IsRan (x ∷ xs) d =
    on_get_record {id = x.record_id} {d = d} (λ r m. NoErr r → _) (λ t. λ bad. absurd bad)
      (λ h. λ _. restore_stock-IsRan xs d)
      λ r h. λ _.
        on_pure (λ a m. Unit {0} → _)
          λ t. λ _.
            on_write (λ a m. NoErr a → _) (λ a. λ bad. absurd bad) (λ a. λ bad. absurd bad)
              (λ _. restore_stock-IsRan xs _)

module _ (r : Request) (d : Db) (x : Order) (h : d.orders (r.path_value "id") ≡ some x) where
  ready :
      (y : Order)
      → y ≡ x
      → MaySee r x
      → x.status ≡ status_pending
      → (is_stranger r y ≡ false) × ((y.status == status_pending) ≡ true)
  ready y same may pending = (
    elim (Bool-cases (is_stranger r y)) [
      | inl s ↦ absurd ((is_stranger-MaySee r y).1 s (subst (MaySee r) (sym same) may))
      | inr s ↦ s
    ],
    (eq_iff _ _).1 (ap (λ z. z.status) same ∙ pending),
  )

  cancel_order-IsDone :
      r.path_value "id" ≢ ""
      → MaySee r x
      → x.status ≡ status_pending
      → Succeeds (cancel_order r) d (λ f _. IsDone (outcome f))
  unfolding cancel_order
  cancel_order-IsDone named may pending = elim (Bool-cases (r.path_value "id" == "")) [
    | inl e ↦ absurd (named ((eq_iff _ _).0 e))
    | inr e ↦ rw e (
        on_get_order {id = r.path_value "id"} {d = d} (λ a m. NoErr a → _) (λ t. λ bad. absurd bad)
          (λ miss. λ _. absurd (cc (h, miss)))
          λ y hy. λ _.
            let (known, waits) = ready y (some-injective y x (sym hy ∙ h)) may pending in
            rw (known, waits)
              (succeeds_seq (restore_stock y.items) _ d (λ f _. IsRan f) _
                (restore_stock-IsRan y.items d)
                (elim [
                  | ran _ ↦ λ e' g.
                      on_pure (λ a m. Unit {0} → _)
                        λ t. λ _.
                          on_write (λ a m. NoErr a → _) (λ a. λ bad. absurd bad)
                            (λ a. λ bad. absurd bad) (λ _. tt)
                  | stopped o ↦ λ e' g. absurd g
                ])))
  ]

listed-AreCounts :
    (is : List OrderItemRequest) (xs : List OrderItem)
    → listed xs ≡ asked is
    → ArePositive is
    → AreCounts xs
listed-AreCounts is [] h p = tt
listed-AreCounts [] (x ∷ xs) h p = absurd (cc h)
listed-AreCounts (i ∷ is) (x ∷ xs) h p =
    let same : x.quantity ≡ i.quantity = cc h in
    let rest : listed xs ≡ asked is = cc h in
    ((rw same (omega (arith, p.0))), listed-AreCounts is xs rest p.1)

-- The order `x` is cancelled, every stock is what it was in `d`, and nothing else has changed since
-- `e`.
abbrev pub Undone : Db → Order → Db → Outcome → Db → Type 0
Undone d x e no_content m =
    ((j : String) → stock_of m j ≡ stock_of d j)
    × (t : Time) × (m.orders ≡ (with_order e (cancelled x t)).orders)
    × (m.users ≡ e.users)
Undone d x e o m = ⊥

-- The same caller's request with another id in its path.
abbrev pub on_path : Request → String → Request
on_path r id = record r { path_value = λ k. id }

-- If an order has been placed, cancelling it undoes that.
abbrev pub Undoable : Platform → Request → Db → Outcome → Db → Type 0
Undoable pf r d (rendered status b) e =
    (x : Order) × (b ≡ Http.order (new_order_response pf x))
    × Succeeds (cancel_order (on_path r x.id)) e (λ f m. Undone d x e (outcome f) m)
Undoable pf r d o e = Unit {0}

stock_or_zero-Gained :
    (o p : Option Record) (n s : ℤ)
    → Gained o p n
    → stock_or_zero o +ℤ n ≡ s
    → (o ≡ none → s ≡ pos 0)
    → stock_or_zero p ≡ s
stock_or_zero-Gained none none n s g h z = sym (z refl)
stock_or_zero-Gained (some r) (some t) n s g h z = g ∙ h
stock_or_zero-Gained none (some t) n s g h z = absurd g
stock_or_zero-Gained (some r) none n s g h z = absurd g

module _ (pf : Platform) (r : Request) (req : CreateOrderRequest) (d : Db)
    (p : ArePositive req.items) (k : IsKeyed d) (s : IsStocked d)
    (ints : (j : String) → stock_of d j ≤ℤ max_int) where
  placed-Fits : (x : Order) (e : Db) → IsPlaced pf r req d x e → IsStocked e → Fits e x.items
  placed-Fits x e h s' j y a =
      let taken = rw a at (h.stock_taken j) in (omega (arith, s' j y a), rw taken (ints j))

  both_Undone :
      (x : Order) (e : Db)
      → IsPlaced pf r req d x e
      → IsKept d e
      → e.orders x.id ≡ some x
      → (o : Outcome) (m : Db) → IsDone o × Cancels (on_path r x.id) e o m
      → Undone d x e o m
  both_Undone x e h kept stored no_content m (_, (y, t, found, _, _, gained, saved, users)) =
      let same : y ≡ x = some-injective y x (sym found ∙ stored) in
      (
        (λ j.
            stock_or_zero-Gained (e.records j) (m.records j) (units j x.items) (stock_of d j)
              (subst (λ o. Gained (e.records j) (m.records j) (units j o.items)) same (gained j))
              (h.stock_taken j) (λ gone. rw (kept j gone) refl)),
        t,
        subst (λ o. m.orders ≡ (with_order e (cancelled o t)).orders) same saved,
        users,
      )
  both_Undone x e h kept stored (Http.rendered _ _) m g = absurd g.0
  both_Undone x e h kept stored (problem _ _) m g = absurd g.0
  both_Undone x e h kept stored (failed _) m g = absurd g.0
  both_Undone x e h kept stored (paged _ _ _ _) m g = absurd g.0
  both_Undone x e h kept stored (panicked _) m g = absurd g.0

  undo_placed :
      (o : Outcome) (e : Db)
      → Creates pf r req d o e × (IsKeyed e × IsStocked e × IsKept d e)
      → Undoable pf r d o e
  undo_placed (rendered status b) e ((_, x, shown, h), (k', s', kept)) =
      let stored : e.orders x.id ≡ some x = ap (λ f. f x.id) h.stored ∙ rw (eq_refl x.id) refl in
      let again = on_path r x.id in
      (
        x,
        shown,
        succeeds_mono (cancel_order again) e _ _
            (λ f m. both_Undone x e h kept stored (outcome f) m)
            (succeeds_both (cancel_order again) e _ _
              (cancel_order-IsDone again e x stored h.named (inr h.owner) h.pending)
              (always-succeeds (cancel_order again) e _ (
                cancel_order-Cancels again e k' λ y hy.
                  subst (λ o. Fits e o.items × AreCounts o.items)
                    (some-injective x y (sym stored ∙ hy))
                    (placed-Fits x e h s', listed-AreCounts req.items x.items h.as_asked p)))),
      )
  undo_placed (problem _ _) e h = tt
  undo_placed (failed _) e h = tt
  undo_placed no_content e h = tt
  undo_placed (paged _ _ _ _) e h = tt
  undo_placed (panicked _) e h = tt

  -- Cancelling an order just placed takes it back: after every run of `CreateOrder` that replies with
  -- an order, `CancelOrder` by the same caller for the id of that order replies 204, if no store
  -- call of it fails; then the stock of every record is what it was before the order, and the order
  -- is stored as cancelled. The quantities are positive, records stand under their own ids, and
  -- stocks are `int`s and not below zero.
  pub create_order-cancel_order : Ensures (create_order pf r (ok req)) d (Undoable pf r d)
  create_order-cancel_order =
      let whole = create_order pf r (ok req) in
      always_mono whole d _ _ (λ f e. undo_placed (outcome f) e)
        (always_both whole d _ _ (create_order-Creates pf r req d p k) (
          Holds-IsStocked "" (pos 0) whole (λ _ _. Unit {0}) d (omega arith) k s
            (create_order-Holds pf "" r req p)))
