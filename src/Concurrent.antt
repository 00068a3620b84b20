-- ===== src/Concurrent.antt =====
-- Requests served at the same time. `net/http` runs each handler in a goroutine of its own, and
-- the handlers share nothing but the store: between two calls of one handler any calls of others
-- may come. A pool is the list of the handlers, each as far as it has got.
pub mod Duties
pub mod Balance
pub mod Oversell
pub mod Keyed
pub mod Alone
pub mod Spares
pub mod Schedule
pub mod Regime
pub mod Obeys
pub mod Served
pub mod Lifecycle
pub mod Sound
pub mod Logins
pub mod Catalog
pub mod Turns
pub mod Twice
pub mod Stale
use zerohttp_example.Base.{String, List, [], ◌∷◌, ◌++◌}
use zerohttp_example.Base.Int.{ℤ, pos, ◌+ℤ◌}
use zerohttp_example.Http.{Outcome}
use zerohttp_example.Models.{Order}
use zerohttp_example.Store.{Call, Reply, save_order}
use zerohttp_example.Store.Spec.{Db, Spec}
use zerohttp_example.Prog.{Prog, call}
use zerohttp_example.Handlers.Order.Stock.{units}

abbrev pub Pool : Type 0
Pool = List (Prog Outcome)

-- One handler of the pool makes its next call, and the store answers.
pub data Step (d : Db) : Pool → Call → Db → Pool → Type 0 where
  here :
      {c : Call} {k : Reply c → Prog Outcome} {ps : Pool} (r : Reply c) (e : Db)
      → Spec c d r e
      → Step d (call c k ∷ ps) c e (k r ∷ ps)
  there :
      {p : Prog Outcome} {ps qs : Pool} {c : Call} {e : Db}
      → Step d ps c e qs
      → Step d (p ∷ ps) c e (p ∷ qs)

-- The order that a call writes, or may have written if the store replies with an error.
abbrev pub written : Call → List Order
written (save_order o) = o ∷ []
written c = []

-- The database and the pool after any calls of any handlers, with the orders written on the way.
pub data Runs (d : Db) (ps : Pool) : Db → Pool → List Order → Type 0 where
  start : Runs d ps d ps []
  later :
      {e f : Db} {qs rs : Pool} {c : Call} {log : List Order}
      → Runs d ps e qs log
      → Step e qs c f rs
      → Runs d ps f rs (written c ++ log)

-- The units of record `j` in a list of orders.
abbrev pub sold : String → List Order → ℤ
sold j [] = pos 0
sold j (o ∷ os) = units j o.items +ℤ sold j os
