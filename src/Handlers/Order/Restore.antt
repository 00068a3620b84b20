-- ===== src/Handlers/Order/Restore.antt =====
-- The loop of `CancelOrder` (handlers/order.go): what it gives back to the stock.
use zerohttp_example.Base.{
  ◌-◌, ◌^◌, String, ◌≡◌, refl, subst, ◌∙◌, inl, inr, true, Bool-cases, ◌==◌, Option, none, some,
  List, [], ◌∷◌, arith, eq_iff, All,
}
use zerohttp_example.Base.Int.{ℤ, pos, negsuc, ◌+ℤ◌, ◌≤ℤ◌, int_laws, add_int, wrap64-eq}
use zerohttp_example.Http.{Outcome, failed}
use zerohttp_example.Http
use zerohttp_example.Models.{OrderItem, Record, Time, touch}
use zerohttp_example.Store.Spec.{Db, with_record}
use zerohttp_example.Store.Rules.{on_get_record, on_pure, on_write}
use zerohttp_example.Prog.{Flow, ran, stopped}
use zerohttp_example.Prog.Always.{Always, always_mono}
use zerohttp_example.Handlers.Order.{restore_stock}
use zerohttp_example.Handlers.Order.Stock.{units, units_if, units_if_nonneg, IsKeyed}

-- Go's `int` holds the integers up to here.
abbrev pub max_int : ℤ
max_int = pos (2 ^ 63 - 1)

abbrev pub min_int : ℤ
min_int = negsuc (2 ^ 63 - 1)

-- A record stays where it is, and its stock has grown by `n`.
abbrev pub Gained : Option Record → Option Record → ℤ → Type 0
Gained none none n = Unit {0}
Gained (some r) (some s) n = s.stock ≡ r.stock +ℤ n
Gained _ _ n = ⊥

-- Its stock has grown by at most `n`.
abbrev pub GainedUpTo : Option Record → Option Record → ℤ → Type 0
GainedUpTo none none n = Unit {0}
GainedUpTo (some r) (some s) n = (r.stock ≤ℤ s.stock) × (s.stock ≤ℤ r.stock +ℤ n)
GainedUpTo _ _ n = ⊥

-- With the units of the items given back, each stock is still an `int`.
abbrev pub Fits : Db → List OrderItem → Type 0
Fits d xs =
    (j : String) (r : Record)
    → d.records j ≡ some r
    → (min_int ≤ℤ r.stock) × (r.stock +ℤ units j xs ≤ℤ max_int)

abbrev pub AreCounts : List OrderItem → Type 0
AreCounts = All (λ x. pos 0 ≤ℤ x.quantity)

pub Gained-trans :
    (x y z : Option Record) (m n : ℤ) → Gained x y m → Gained y z n → Gained x z (m +ℤ n)
Gained-trans none none none m n h k = tt
Gained-trans (some r) (some s) (some t) m n h k = rw (k, h) (omega int_laws)
Gained-trans none none (some t) m n h k = absurd k
Gained-trans none (some s) z m n h k = absurd h
Gained-trans (some r) none z m n h k = absurd h
Gained-trans (some r) (some s) none m n h k = absurd k

pub GainedUpTo-trans :
    (x y z : Option Record) (m n : ℤ)
    → pos 0 ≤ℤ m
    → Gained x y m
    → GainedUpTo y z n
    → GainedUpTo x z (m +ℤ n)
GainedUpTo-trans none none none m n p h k = tt
GainedUpTo-trans (some r) (some s) (some t) m n p h k = grind int_laws
GainedUpTo-trans none none (some t) m n p h k = absurd k
GainedUpTo-trans none (some s) z m n p h k = absurd h
GainedUpTo-trans (some r) none z m n p h k = absurd h
GainedUpTo-trans (some r) (some s) none m n p h k = absurd k

pub units_nonneg : (j : String) (xs : List OrderItem) → AreCounts xs → pos 0 ≤ℤ units j xs
units_nonneg j [] h = omega arith
units_nonneg j (x ∷ xs) h = elim (Bool-cases (j == x.record_id)) [
  | inl e ↦ rw e (omega (int_laws, units_nonneg j xs h.1, h.0))
  | inr e ↦ rw e (omega (int_laws, units_nonneg j xs h.1))
]

add_int-eq : (a b : ℤ) → min_int ≤ℤ a +ℤ b → a +ℤ b ≤ℤ max_int → add_int a b ≡ a +ℤ b
unfolding add_int
add_int-eq a b h k = wrap64-eq (a +ℤ b) k h

Gained-zero : (x : Option Record) → Gained x x (pos 0)
Gained-zero none = tt
Gained-zero (some r) = omega int_laws

pub fits_of_gained :
    (o : Option Record) (s : Record) (m n : ℤ)
    → Gained o (some s) m
    → pos 0 ≤ℤ m
    → ((r : Record) → o ≡ some r → (min_int ≤ℤ r.stock) × (r.stock +ℤ (m +ℤ n) ≤ℤ max_int))
    → (min_int ≤ℤ s.stock) × (s.stock +ℤ n ≤ℤ max_int)
fits_of_gained none s m n g p f = absurd g
fits_of_gained (some r) s m n g p f =
    let fits = f r refl in rw g (omega (int_laws, fits.0, p), omega (int_laws, fits.1))

-- The record with `q` more in stock, at the given instant.
abbrev stocked : Record → ℤ → Time → Record
stocked r q t = record r { base = touch r.base t; stock = add_int r.stock q }

module _ (x : OrderItem) (xs : List OrderItem) (d : Db) (r : Record) (t : Time)
    (h : d.records x.record_id ≡ some r) (k : IsKeyed d) (f : Fits d (x ∷ xs))
    (c : AreCounts (x ∷ xs)) where
  gave : Db
  gave = with_record d (stocked r x.quantity t)

  stocked-stock : (stocked r x.quantity t).stock ≡ r.stock +ℤ x.quantity
  stocked-stock =
      let self : (x.record_id == x.record_id) ≡ true = (eq_iff x.record_id x.record_id).1 refl in
      let fits = rw self at (f x.record_id r h) in
      let more = units_nonneg x.record_id xs c.1 in
      add_int-eq r.stock x.quantity (omega (int_laws, fits.0, c.0)) (omega (int_laws, fits.1, more))

  gave-Gained :
      (j : String) → Gained (d.records j) (gave.records j) (units_if j x.record_id x.quantity)
  unfolding gave
  gave-Gained j = elim (Bool-cases (j == x.record_id)) [
    | inl e ↦ rw (k x.record_id r h, e, (eq_iff j x.record_id).0 e, h) stocked-stock
    | inr e ↦ rw (k x.record_id r h, e) (Gained-zero (d.records j))
  ]

  gave-IsKeyed : IsKeyed gave
  unfolding gave
  gave-IsKeyed j s e = ground (arith, eq_iff j r.id, k j s)

-- What the loop leaves: every stock has grown by the units of that record in the items, and a
-- loop that a failed store call stops has given back no more than that.
abbrev pub Restored : List OrderItem → Db → Flow (Unit {0}) → Db → Type 0
Restored xs d (ran _) e =
    ((j : String) → Gained (d.records j) (e.records j) (units j xs))
    × (e.users ≡ d.users)
    × (e.orders ≡ d.orders)
Restored xs d (stopped (failed _)) e =
    ((j : String) → GainedUpTo (d.records j) (e.records j) (units j xs))
    × (e.users ≡ d.users)
    × (e.orders ≡ d.orders)
Restored xs d (stopped _) e = ⊥

pub Gained-UpTo : (x y : Option Record) (n : ℤ) → pos 0 ≤ℤ n → Gained x y n → GainedUpTo x y n
Gained-UpTo none none n p h = tt
Gained-UpTo (some r) (some s) n p h = rw h (omega int_laws)
Gained-UpTo none (some s) n p h = absurd h
Gained-UpTo (some r) none n p h = absurd h

GainedUpTo-refl : (x : Option Record) (n : ℤ) → pos 0 ≤ℤ n → GainedUpTo x x n
GainedUpTo-refl none n p = tt
GainedUpTo-refl (some r) n p = omega int_laws

module _ (x : OrderItem) (xs : List OrderItem) (d e : Db)
    (g : (j : String) → Gained (d.records j) (e.records j) (units_if j x.record_id x.quantity))
    (c : AreCounts (x ∷ xs)) where
  gained-Fits : Fits d (x ∷ xs) → Fits e xs
  gained-Fits f j s h =
      fits_of_gained (d.records j) s (units_if j x.record_id x.quantity) (units j xs)
        (subst (λ o. Gained (d.records j) o (units_if j x.record_id x.quantity)) h (g j))
        (units_if_nonneg j x.record_id x.quantity c.0) (f j)

  -- One round and the rest of the loop.
  then_rest :
      e.users ≡ d.users
      → e.orders ≡ d.orders
      → (v : Flow (Unit {0})) (m : Db) → Restored xs e v m
      → Restored (x ∷ xs) d v m
  then_rest u o (ran a) m (r, p, q) =
      ((λ j. Gained-trans (d.records j) (e.records j) (m.records j) _ _ (g j) (r j)), p ∙ u, q ∙ o)
  then_rest u o (stopped (failed t)) m (r, p, q) = (
    (λ j.
        GainedUpTo-trans (d.records j) (e.records j) (m.records j) _ _
          (units_if_nonneg j x.record_id x.quantity c.0) (g j) (r j)),
    p ∙ u,
    q ∙ o,
  )
  then_rest u o (stopped (Http.problem _ _)) m r = absurd r
  then_rest u o (stopped (Http.rendered _ _)) m r = absurd r
  then_rest u o (stopped (Http.paged _ _ _ _)) m r = absurd r
  then_rest u o (stopped Http.no_content) m r = absurd r
  then_rest u o (stopped (Http.panicked _)) m r = absurd r

missing-Gained :
    (d : Db) (id : String) (q : ℤ)
    → d.records id ≡ none
    → (j : String) → Gained (d.records j) (d.records j) (units_if j id q)
missing-Gained d id q h j = elim (Bool-cases (j == id)) [
  | inl e ↦ rw (e, (eq_iff j id).0 e, h) tt
  | inr e ↦ rw e (Gained-zero (d.records j))
]

-- The loop of `CancelOrder` gives back to each stored record the units that the items list of it.
pub restore_stock-Restored :
    (xs : List OrderItem) (d : Db)
    → IsKeyed d
    → Fits d xs
    → AreCounts xs
    → Always (restore_stock xs) d (Restored xs d)
unfolding restore_stock gave
restore_stock-Restored [] d k f c = ((λ j. Gained-zero (d.records j)), refl, refl)
restore_stock-Restored (x ∷ xs) d k f c =
    on_get_record {id = x.record_id} {d = d} _
      (λ t. ((λ j. GainedUpTo-refl (d.records j) _ (units_nonneg j (x ∷ xs) c)), refl, refl))
      (λ h.
        let g = missing-Gained d x.record_id x.quantity h in
        always_mono (restore_stock xs) d (Restored xs d) _ (then_rest x xs d d g c refl refl)
          (restore_stock-Restored xs d k (gained-Fits x xs d d g c f) c.1))
      λ r h. on_pure _ λ t.
        let e = gave x xs d r t h k f c in
        let g = gave-Gained x xs d r t h k f c in
        on_write _
          (λ a. ((λ j. GainedUpTo-refl (d.records j) _ (units_nonneg j (x ∷ xs) c)), refl, refl))
          (λ a. (
            (λ j.
                GainedUpTo-trans (d.records j) (e.records j) (e.records j) _ _
                  (units_if_nonneg j x.record_id x.quantity c.0) (g j)
                  (GainedUpTo-refl (e.records j) _ (units_nonneg j xs c.1))),
            refl,
            refl,
          ))
          (always_mono (restore_stock xs) e (Restored xs e) _ (then_rest x xs d e g c refl refl) (
            restore_stock-Restored xs e (gave-IsKeyed x xs d r t h k f c)
              (gained-Fits x xs d e g c f) c.1))
