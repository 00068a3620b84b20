-- ===== src/Concurrent/Turns.antt =====
-- A handler that runs to its end while the others of the pool wait.
use zerohttp_example.Base.{List}
use zerohttp_example.Http.{Outcome}
use zerohttp_example.Models.{Order}
use zerohttp_example.Store.{Call, Reply}
use zerohttp_example.Store.Spec.{Db, Spec}
use zerohttp_example.Prog.{Prog, ret, stop, call, Flow, ran, stopped}
use zerohttp_example.Prog.Sometimes.{Sometimes}
use zerohttp_example.Concurrent.{Pool, Step, Runs, later}

-- A handler that has come to its end.
abbrev pub ended : Flow Outcome → Prog Outcome
ended (ran o) = ret o
ended (stopped o) = stop o

-- One handler of a pool comes to its end while the others wait.
pub Sometimes-Runs :
    (at : Prog Outcome → Pool)
    → ((c : Call) (k : Reply c → Prog Outcome) (r : Reply c) (d e : Db)
        → Spec c d r e
        → Step d (at (call c k)) c e (at (k r)))
    → (p : Prog Outcome) (d : Db) (Q : Flow Outcome → Db → Type 0) {d0 : Db} {ps : Pool}
      {log : List Order}
    → Runs d0 ps d (at p) log
    → Sometimes p d Q
    → (v : Flow Outcome) × (e : Db) × (more : List Order) × Q v e × Runs d0 ps e (at (ended v)) more
Sometimes-Runs at w (ret a) d Q {log = log} r h = (ran a, d, log, h, r)
Sometimes-Runs at w (stop o) d Q {log = log} r h = (stopped o, d, log, h, r)
Sometimes-Runs at w (call c k) d Q r (a, m, s, h) =
    Sometimes-Runs at w (k a) m Q (later r (w c k a d m s)) h
