-- ===== src/Concurrent/Oversell.antt =====
-- Orders placed at the same time never sell more than there is in stock.
use zerohttp_example.Base.{String, ◌≡◌, List, [], ◌∷◌, ◌++◌, map, arith, All, ok}
use zerohttp_example.Base.Int.{ℤ, pos, ◌+ℤ◌, ◌-ℤ◌, ◌≤ℤ◌, int_laws}
use zerohttp_example.Http.{Request}
use zerohttp_example.Models.{Order}
use zerohttp_example.Models.Platform.{Platform}
use zerohttp_example.Api.{CreateOrderRequest}
use zerohttp_example.Store.{Call}
use zerohttp_example.Store.Spec.{Db}
use zerohttp_example.Handlers.Order.{create_order}
use zerohttp_example.Handlers.Order.Stock.{stock_of, IsKeyed}
use zerohttp_example.Handlers.Order.Reserve.{ArePositive}
use zerohttp_example.Concurrent.{Pool, Step, here, there, Runs, start, later, written, sold}
use zerohttp_example.Concurrent.Duties.{Holds, create_order-Holds}
use zerohttp_example.Concurrent.Balance.{IsStocked, advance}

-- The handlers of the pool keep to their duties, with at most `n` units of record `j` in hand.
abbrev Owes : String → Pool → ℤ → Type 0
Owes j [] n = pos 0 ≤ℤ n
Owes j (p ∷ ps) n = (m : ℤ) × (pos 0 ≤ℤ m) × Holds j m p (λ _ _. Unit {0}) × Owes j ps (n -ℤ m)

Owes-mono : (j : String) (ps : Pool) (m n : ℤ) → m ≤ℤ n → Owes j ps m → Owes j ps n
Owes-mono j [] m n h o = omega arith
Owes-mono j (p ∷ ps) m n h (a, b, c, o) = (a, b, c, Owes-mono j ps _ _ (omega int_laws) o)

Owes-nonneg : (j : String) (ps : Pool) (n : ℤ) → Owes j ps n → pos 0 ≤ℤ n
Owes-nonneg j [] n o = o
Owes-nonneg j (p ∷ ps) n (a, b, c, o) = omega (int_laws, Owes-nonneg j ps (n -ℤ a) o)

-- `n` bounds what the pool has in hand, with stock and sales, before a step and after it.
record Moves (j : String) (d : Db) (c : Call) (e : Db) (ps : Pool) (n : ℤ) : Type 0 where
  left : ℤ
  owed : Owes j ps left
  balance : left +ℤ stock_of e j +ℤ sold j (written c) ≤ℤ n +ℤ stock_of d j
  keyed : IsKeyed e
  stocked : IsStocked e

Step-Moves :
    (j : String) (d : Db) {ps qs : Pool} {c : Call} {e : Db} (n : ℤ)
    → IsKeyed d
    → IsStocked d
    → Step d ps c e qs
    → Owes j ps n
    → Moves j d c e qs n
Step-Moves j d n k s (here {c = c} r e a) (m, p, h, o) =
    let (m', h', b) = advance j d m p k s c r e _ a h in
    record {
      left = m' +ℤ (n -ℤ m);
      owed = (m', b.in_hand, h', Owes-mono j _ (n -ℤ m) _ (omega int_laws) o);
      balance = omega (int_laws, b.balance);
      keyed = b.keyed;
      stocked = b.stocked;
    }
Step-Moves j d n k s (there st) (m, p, h, o) =
    let mv = Step-Moves j d (n -ℤ m) k s st o in
    record {
      left = m +ℤ mv.left;
      owed = (m, p, h, Owes-mono j _ mv.left _ (omega int_laws) mv.owed);
      balance = omega (int_laws, mv.balance);
      keyed = mv.keyed;
      stocked = mv.stocked;
    }

sold-append : (j : String) (xs ys : List Order) → sold j (xs ++ ys) ≡ sold j xs +ℤ sold j ys
sold-append j [] ys = omega int_laws
sold-append j (x ∷ xs) ys = rw (sold-append j xs ys) (omega int_laws)

record Conserves (j : String) (d e : Db) (ps : Pool) (log : List Order) : Type 0 where
  left : ℤ
  owed : Owes j ps left
  balance : left +ℤ stock_of e j +ℤ sold j log ≤ℤ stock_of d j
  keyed : IsKeyed e
  stocked : IsStocked e

Runs-Conserves :
    (j : String) (d : Db) {ps qs : Pool} {e : Db} {log : List Order}
    → IsKeyed d
    → IsStocked d
    → Owes j ps (pos 0)
    → Runs d ps e qs log
    → Conserves j d e qs log
Runs-Conserves j d k s o start = record {
  left = pos 0;
  owed = o;
  balance = omega int_laws;
  keyed = k;
  stocked = s;
}
Runs-Conserves j d k s o (later {e = e} {c = c} {log = log} r st) =
    let cs = Runs-Conserves j d k s o r in
    let mv = Step-Moves j e cs.left cs.keyed cs.stocked st cs.owed in
    record {
      left = mv.left;
      owed = mv.owed;
      balance = rw sold-append (omega (int_laws, cs.balance, mv.balance));
      keyed = mv.keyed;
      stocked = mv.stocked;
    }

-- The handlers of `POST /orders` for a list of requests, none of them begun.
abbrev pub order_handlers : Platform → List (Request × CreateOrderRequest) → Pool
order_handlers pf = map (λ q. create_order pf q.0 (ok q.1))

order_handlers-Owes :
    (pf : Platform) (j : String) (qs : List (Request × CreateOrderRequest))
    → All (λ q. ArePositive q.1.items) qs
    → Owes j (order_handlers pf qs) (pos 0)
order_handlers-Owes pf j [] p = omega arith
order_handlers-Owes pf j (q ∷ qs) p = (
  pos 0,
  omega arith,
  create_order-Holds pf j q.0 q.1 p.0,
  Owes-mono j _ (pos 0) _ (omega int_laws) (order_handlers-Owes pf j qs p.1),
)

-- However the calls of any number of `CreateOrder` handlers interleave, and whichever of them
-- fail: the units of a record in all orders written, with what is left in stock, are no more than
-- the stock at the beginning, and no stock falls below zero.
pub no_oversell :
    (pf : Platform) (reqs : List (Request × CreateOrderRequest)) (d : Db) {e : Db} {qs : Pool}
    {log : List Order}
    → All (λ q. ArePositive q.1.items) reqs
    → IsKeyed d
    → IsStocked d
    → Runs d (order_handlers pf reqs) e qs log
    → ((j : String) → sold j log +ℤ stock_of e j ≤ℤ stock_of d j) × IsStocked e
no_oversell pf reqs d p k s r = (
  (λ j.
      let cs = Runs-Conserves j d k s (order_handlers-Owes pf j reqs p) r in
      omega (int_laws, cs.balance, Owes-nonneg j _ cs.left cs.owed)),
  (Runs-Conserves "" d k s (order_handlers-Owes pf "" reqs p) r).stocked,
)
