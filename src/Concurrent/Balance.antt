-- ===== src/Concurrent/Balance.antt =====
-- What one call of a handler that keeps to its duties does to the stock, to what the handler has in
-- hand, and to what is sold.
use zerohttp_example.Base.{
  String, ◌≡◌, refl, sym, ap, ◌∙◌, inl, inr, Bool, true, false, Option, none, some, arith, eq_iff,
  Result, ok, err,
}
use zerohttp_example.Base.Int.{ℤ, pos, ◌+ℤ◌, ◌-ℤ◌, ◌≤ℤ◌, -ℤ_parts, int_laws}
use zerohttp_example.Models.{Order, Record, Time}
use zerohttp_example.Store.{
  Call, Reply, get_user, save_user, get_user_by_email, get_all_users, get_record, save_record,
  get_all_records, get_filtered_records, decrement_stock, get_order, save_order, get_orders_by_user,
  get_all_orders, new_xid,
}
use zerohttp_example.Store.Spec.{Db, Spec, Reads, Writes, with_taken}
use zerohttp_example.Handlers.Order.Stock.{
  units, units_if, units_if_nonneg, stock_of, IsKeyed, stock_of-with_taken, with_taken-IsKeyed,
}
use zerohttp_example.Concurrent.{written, sold}
use zerohttp_example.Concurrent.Duties.{Answers, granted, Duties}

-- No stock is below zero.
abbrev pub IsStocked : Db → Type 0
IsStocked d = (id : String) (r : Record) → d.records id ≡ some r → pos 0 ≤ℤ r.stock

-- Over a call the units of `j` in the caller's hand, in stock and sold do not grow in sum: `m` is
-- in hand before the call and `n` after it.
pub record Balances (j : String) (d : Db) (c : Call) (e : Db) (m n : ℤ) : Type 0 where
  pub in_hand : pos 0 ≤ℤ n
  pub balance : n +ℤ stock_of e j +ℤ sold j (written c) ≤ℤ m +ℤ stock_of d j
  pub keyed : IsKeyed e
  pub stocked : IsStocked e
  pub kept : (k : String) → e.records k ≡ none → d.records k ≡ none

Reads-same : {A : Type 0} (r : Result A) (P : A → Type 0) (d e : Db) → Reads r P d e → e ≡ d
Reads-same (ok a) P d e h = h.1
Reads-same (err t) P d e h = h

Writes-records :
    (r : Result (Unit {0})) (d d' e : Db)
    → d'.records ≡ d.records
    → Writes r d d' e
    → e.records ≡ d.records
Writes-records (ok _) d d' e q h = ap (λ x. x.records) h ∙ q
Writes-records (err t) d d' e q (inl h) = ap (λ x. x.records) h
Writes-records (err t) d d' e q (inr h) = ap (λ x. x.records) h ∙ q

Answers-lookup :
    (id : String) (r : Result (Option Record)) (d e : Db)
    → IsKeyed d
    → Reads r (λ o. o ≡ d.records id) d e
    → Answers id r
Answers-lookup id (ok (some x)) d e k h = k id x (sym h.0)
Answers-lookup id (ok none) d e k h = tt
Answers-lookup id (err t) d e k h = tt

with_taken-IsStocked :
    (d : Db) (id : String) (r : Record) (q : ℤ) (t : Time)
    → d.records id ≡ some r
    → q ≤ℤ r.stock
    → IsStocked d
    → IsStocked (with_taken d id r q t)
with_taken-IsStocked d id r q t h c s j x e = ground (arith, eq_iff j id, -ℤ_parts r.stock q, s j x)

with_taken-kept :
    (d : Db) (id : String) (r : Record) (q : ℤ) (t : Time) (i : String)
    → (with_taken d id r q t).records i ≡ none
    → d.records i ≡ none
with_taken-kept d id r q t i a = ground arith

module _ (j : String) (d : Db) (m : ℤ) (p : pos 0 ≤ℤ m) (k : IsKeyed d) (s : IsStocked d) where
  -- A call that leaves the records alone and writes no order.
  idle :
      (c : Call) (e : Db) (K : ℤ → Type 0)
      → sold j (written c) ≡ pos 0
      → e.records ≡ d.records
      → K m
      → (n : ℤ) × K n × Balances j d c e m n
  idle c e K w q h = (
    m,
    h,
    record {
      in_hand = p;
      balance = rw (q, w) (omega int_laws);
      keyed = rw q k;
      stocked = rw q s;
      kept = λ i a. rw q at a;
    },
  )

  order :
      (o : Order) (e : Db) (K : ℤ → Type 0)
      → units j o.items ≤ℤ m
      → e.records ≡ d.records
      → K (m -ℤ units j o.items)
      → (n : ℤ) × K n × Balances j d (save_order o) e m n
  order o e K u q h = (
    m -ℤ units j o.items,
    h,
    record {
      in_hand = omega int_laws;
      balance = rw q (omega int_laws);
      keyed = rw q k;
      stocked = rw q s;
      kept = λ i a. rw q at a;
    },
  )

  -- `q` units of `id` leave the stock, and `g` of record `j` come into the caller's hand.
  take :
      (id : String) (q g : ℤ) (r : Record) (t : Time) (e : Db) (K : ℤ → Type 0)
      → pos 0 ≤ℤ g
      → g ≤ℤ units_if j id q
      → d.records id ≡ some r
      → q ≤ℤ r.stock
      → e ≡ with_taken d id r q t
      → K (m +ℤ g)
      → (n : ℤ) × K n × Balances j d (decrement_stock id q) e m n
  take id q g r t e K z y h c a w = (
    m +ℤ g,
    w,
    rw a (record {
      in_hand = omega (int_laws, z);
      balance = grind (int_laws, stock_of-with_taken d id r q t j h);
      keyed = with_taken-IsKeyed d id r q t h k;
      stocked = with_taken-IsStocked d id r q t h c s;
      kept = λ i a. with_taken-kept d id r q t i a;
    }),
  )

  read :
      {A : Type 0} (r : Result A) (P : A → Type 0) (c : Call) (e : Db) (K : ℤ → Type 0)
      → sold j (written c) ≡ pos 0
      → Reads r P d e
      → K m
      → (n : ℤ) × K n × Balances j d c e m n
  read r P c e K w h = idle c e K w (ap (λ x. x.records) (Reads-same r P d e h))

  granted_nothing : (q : ℤ) → m +ℤ pos 0 ≡ m
  granted_nothing q = omega int_laws

  decrement :
      (id : String) (q : ℤ) (r : Result Bool) (e : Db) (K : Result Bool → ℤ → Type 0)
      → pos 0 ≤ℤ q
      → Spec (decrement_stock id q) d r e
      → K r (m +ℤ granted j id q r)
      → (n : ℤ) × K r n × Balances j d (decrement_stock id q) e m n
  decrement id q (ok true) e K z (r, t, h, c, a) w =
      take id q (units_if j id q) r t e (K (ok true)) (units_if_nonneg j id q z) (omega arith) h c a
        w
  decrement id q (ok false) e K z (h, a) w =
      idle _ e (K (ok false)) refl (ap (λ x. x.records) a) (rw (granted_nothing q) at w)
  decrement id q (err t) e K z (inl a) w =
      idle _ e (K (err t)) refl (ap (λ x. x.records) a) (rw (granted_nothing q) at w)
  decrement id q (err t) e K z (inr (r, i, h, c, a)) w =
      take id q (pos 0) r i e (K (err t)) (omega arith) (units_if_nonneg j id q z) h c a w

  -- The next call of a handler that holds `m` units and does its duties.
  pub advance :
      (c : Call) (r : Reply c) (e : Db) (K : Reply c → ℤ → Type 0)
      → Spec c d r e
      → Duties j m c K
      → (n : ℤ) × K r n × Balances j d c e m n
  advance (get_user id) r e K a h = read r _ _ e (K r) refl a (h r)
  advance (save_user u) r e K a h = idle _ e (K r) refl (Writes-records r d _ e refl a) (h r)
  advance (get_user_by_email x) r e K a h = read r _ _ e (K r) refl a (h r)
  advance (get_all_users f) r e K a h = read r _ _ e (K r) refl a (h r)
  advance (get_record id) r e K a h = read r _ _ e (K r) refl a (h r (Answers-lookup id r d e k a))
  advance (save_record x) r e K a h = absurd h
  advance get_all_records r e K a h = read r _ _ e (K r) refl a (h r)
  advance (get_filtered_records f) r e K a h = read r _ _ e (K r) refl a (h r)
  advance (decrement_stock id q) r e K a h = decrement id q r e K h.0 a (h.1 r)
  advance (get_order id) r e K a h = read r _ _ e (K r) refl a (h r)
  advance (save_order o) r e K a h = order o e (K r) h.0 (Writes-records r d _ e refl a) (h.2 r)
  advance (get_orders_by_user f) r e K a h = read r _ _ e (K r) refl a (h r)
  advance (get_all_orders f) r e K a h = read r _ _ e (K r) refl a (h r)
  advance new_xid r e K a h = idle _ e (K r) refl (ap (λ x. x.records) a.3) (h r)
  advance _ r e K a h = idle _ e (K r) refl (ap (λ x. x.records) a) (h r)
