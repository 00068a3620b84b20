-- ===== src/Concurrent/Keyed.antt =====
-- Ids stay keys, whatever handlers run at the same time.
use zerohttp_example.Base.{List}
use zerohttp_example.Models.{Order}
use zerohttp_example.Store.{Call}
use zerohttp_example.Store.Spec.{Db}
use zerohttp_example.Store.Keyed.{IsWellKeyed, Spec-IsWellKeyed}
use zerohttp_example.Concurrent.{Pool, Step, here, there, Runs, start, later}

pub Step-IsWellKeyed :
    (d : Db) {ps qs : Pool} {c : Call} {e : Db} → Step d ps c e qs → IsWellKeyed d → IsWellKeyed e
Step-IsWellKeyed d (here {c = c} r e s) h = Spec-IsWellKeyed c d r e s h
Step-IsWellKeyed d (there s) h = Step-IsWellKeyed d s h

-- Whatever handlers run at the same time and however far they get: if each user, record and order
-- stands under its own id at the beginning, each does at every moment.
pub Runs-IsWellKeyed :
    {d : Db} {ps : Pool} {e : Db} {qs : Pool} {log : List Order}
    → Runs d ps e qs log
    → IsWellKeyed d
    → IsWellKeyed e
Runs-IsWellKeyed start h = h
Runs-IsWellKeyed (later {e = e} r s) h = Step-IsWellKeyed e s (Runs-IsWellKeyed r h)
