-- ===== src/Concurrent/Duties.antt =====
-- What a handler of orders may do with the stock that it has taken (handlers/order.go), call by
-- call, and that `CreateOrder` keeps to it.
use zerohttp_example.Base.{
  String, ◌≡◌, inl, inr, Bool, true, false, Bool-cases, ◌==◌, Option, none, some, List, [], ◌∷◌,
  arith, Result, ok, err,
}
use zerohttp_example.Base.Int.{ℤ, pos, ◌+ℤ◌, ◌-ℤ◌, ◌≤ℤ◌, int_laws}
use zerohttp_example.Http.{Request}
use zerohttp_example.Models.{OrderItem, Record}
use zerohttp_example.Models.Platform.{Platform}
use zerohttp_example.Api.{CreateOrderRequest, OrderItemRequest}
use zerohttp_example.Store.{Call, Reply, get_record, save_record, decrement_stock, save_order}
use zerohttp_example.Prog.{Prog, ret, stop, call, ◌>>=◌}
use zerohttp_example.Models.New.{new_order}
use zerohttp_example.Handlers.Middleware.{get_user_id}
use zerohttp_example.Handlers.Order.{create_order, reserve, reserve_all}
use zerohttp_example.Handlers.Order.Stock.{units, units_if, units_if_nonneg}
use zerohttp_example.Handlers.Order.Reserve.{ArePositive}

-- A record that answers a lookup has the id that was looked up.
abbrev pub Answers : String → Result (Option Record) → Type 0
Answers id (ok (some r)) = r.id ≡ id
Answers id _ = Unit {0}

-- The units of record `j` that a reply to a decrement hands to the caller.
abbrev pub granted : String → String → ℤ → Result Bool → ℤ
granted j id q (ok true) = units_if j id q
granted j id q _ = pos 0

-- The duties of a handler at a call, if it holds `n` units of record `j`; `K r m` is the rest,
-- after the reply `r`, with `m` units in hand.
abbrev pub Duties : String → ℤ → (c : Call) → (Reply c → ℤ → Type 0) → Type 0
Duties j n (get_record id) K = (r : Result (Option Record)) → Answers id r → K r n
Duties j n (save_record x) K = ⊥
Duties j n (decrement_stock id q) K =
    (pos 0 ≤ℤ q) × ((r : Result Bool) → K r (n +ℤ granted j id q r))
Duties j n (save_order o) K =
    (units j o.items ≤ℤ n)
    × (pos 0 ≤ℤ units j o.items)
    × ((r : Result (Unit {0})) → K r (n -ℤ units j o.items))
Duties j n c K = (r : Reply c) → K r n

-- The program never puts more of record `j` into orders than it has taken of the stock, `n` units
-- of which it has in hand, and it overwrites no record; `Q` holds of its value and what is left.
abbrev pub Holds : {A : Type 0} → String → ℤ → Prog A → (A → ℤ → Type 0) → Type 0
Holds j n (ret a) Q = Q a n
Holds j n (stop o) Q = Unit
Holds j n (call c k) Q = Duties j n c (λ r m. Holds j m (k r) Q)

-- `Duties` is monotone in what follows the call.
Duties-mono :
    (j : String) (n : ℤ) (c : Call) (K L : Reply c → ℤ → Type 0)
    → ((r : Reply c) (m : ℤ) → K r m → L r m)
    → Duties j n c K
    → Duties j n c L
Duties-mono j n (get_record id) K L w h = λ r a. w r n (h r a)
Duties-mono j n (save_record x) K L w h = h
Duties-mono j n (decrement_stock id q) K L w h = (h.0, λ r. w r _ (h.1 r))
Duties-mono j n (save_order o) K L w h = (h.0, h.1, λ r. w r _ (h.2 r))
Duties-mono j n _ K L w h = λ r. w r n (h r)

holds_bind :
    {A B : Type 0} (j : String) (n : ℤ) (p : Prog A) (f : A → Prog B) (Q : B → ℤ → Type 0)
    → Holds j n p (λ a m. Holds j m (f a) Q)
    → Holds j n (p >>= f) Q
holds_bind j n (ret a) f Q h = h
holds_bind j n (stop o) f Q h = h
holds_bind j n (call c k) f Q h = Duties-mono j n c _ _ (λ r m. holds_bind j m (k r) f Q) h

holds_mono :
    {A : Type 0} (j : String) (n : ℤ) (p : Prog A) (Q R : A → ℤ → Type 0)
    → ((a : A) (m : ℤ) → Q a m → R a m)
    → Holds j n p Q
    → Holds j n p R
holds_mono j n (ret a) Q R w h = w a n h
holds_mono j n (stop o) Q R w h = h
holds_mono j n (call c k) Q R w h = Duties-mono j n c _ _ (λ r m. holds_mono j m (k r) Q R w) h

reserve-Holds :
    (j : String) (n : ℤ) (i : OrderItemRequest)
    → pos 1 ≤ℤ i.quantity
    → Holds j n
        (reserve i)
        λ x m. (m ≡ n +ℤ units_if j x.record_id x.quantity) × (pos 0 ≤ℤ x.quantity)
unfolding reserve
reserve-Holds j n i p (err t) a = tt
reserve-Holds j n i p (ok none) a = tt
reserve-Holds j n i p (ok (some r)) a = elim (Bool-cases r.archived) [
  | inl e ↦ rw e tt
  | inr e ↦ rw e (omega arith, elim [ ok true ↦ (rw a, omega arith) | ok false ↦ tt | err t ↦ tt ])
]

abbrev InHand : String → ℤ → List OrderItem → ℤ → Type 0
InHand j n xs m = (m ≡ n +ℤ units j xs) × (pos 0 ≤ℤ units j xs)

InHand-cons :
    (j : String) (n m l : ℤ) (x : OrderItem) (xs : List OrderItem)
    → m ≡ n +ℤ units_if j x.record_id x.quantity
    → pos 0 ≤ℤ x.quantity
    → InHand j m xs l
    → InHand j n (x ∷ xs) l
InHand-cons j n m l x xs e p (h, q) =
    (rw (h, e) (omega int_laws), omega (int_laws, q, units_if_nonneg j x.record_id x.quantity p))

reserve_all-Holds :
    (j : String) (n : ℤ) (is : List OrderItemRequest)
    → ArePositive is
    → Holds j n (reserve_all is) (InHand j n)
unfolding reserve_all
reserve_all-Holds j n [] p = (omega int_laws, omega arith)
reserve_all-Holds j n (i ∷ is) p = holds_bind j n (reserve i) _ _ (
    holds_mono j n (reserve i) _ _
      (λ x m h. holds_bind j m (reserve_all is) _ _ (
        holds_mono j m (reserve_all is) _ _ (λ xs l k. InHand-cons j n m l x xs h.0 h.1 k)
          (reserve_all-Holds j m is p.1)))
      (reserve-Holds j n i p.0))

pub create_order-Holds :
    (pf : Platform) (j : String) (r : Request) (req : CreateOrderRequest)
    → ArePositive req.items
    → Holds j (pos 0) (create_order pf r (ok req)) (λ _ _. Unit {0})
unfolding create_order new_order
create_order-Holds pf j r req p = elim (Bool-cases (get_user_id r == "")) [
  | inl e ↦ rw e tt
  | inr e ↦ rw e (
      holds_bind j (pos 0) (reserve_all req.items) _ _ (
        holds_mono j (pos 0) (reserve_all req.items) _ _
          (λ xs m h id created updated.
            (rw h.0 (omega int_laws), h.1, elim [ ok _ ↦ tt | err _ ↦ tt ]))
          (reserve_all-Holds j (pos 0) req.items p)))
]
