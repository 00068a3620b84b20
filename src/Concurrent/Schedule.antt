-- ===== src/Concurrent/Schedule.antt =====
-- Handlers that are run at the same time by one server: a schedule says which of them makes its next
-- call.
use zerohttp_example.Base.{ℕ, zero, suc, ◌≡◌, refl, ap, ◌⊎◌, inl, inr, List, [], ◌∷◌, ◌++◌, All}
use zerohttp_example.Models.{Order}
use zerohttp_example.Store.{Call}
use zerohttp_example.Store.Spec.{Db}
use zerohttp_example.Prog.{ret, stop, call}
use zerohttp_example.Prog.Run.{Server, Calls, Keeps}
use zerohttp_example.Concurrent.{Pool, Step, here, there, Runs, start, later, written}

-- The pool, the state of the server, and the orders written since the beginning.
pub record Moment (W : Type 0) : Type 0 where
  pub pool : Pool
  pub world : W
  pub log : List Order

-- The `i`-th handler of a pool makes its next call, if it has one to make.
abbrev pub turn : {W : Type 0} → Server W → ℕ → Pool → W → Moment W
turn s i [] w = record { pool = []; world = w; log = [] }
turn s zero (ret o ∷ ps) w = record { pool = ret o ∷ ps; world = w; log = [] }
turn s zero (stop o ∷ ps) w = record { pool = stop o ∷ ps; world = w; log = [] }
turn s zero (call c k ∷ ps) w =
    let answer = s c w in record { pool = k answer.0 ∷ ps; world = answer.1; log = written c }
turn s (suc i) (p ∷ ps) w =
    let m = turn s i ps w in record { pool = p ∷ m.pool; world = m.world; log = m.log }

-- The turns of a schedule one after the other; the last one is the head of the list.
abbrev pub turns : {W : Type 0} → Server W → List ℕ → Pool → W → Moment W
turns s [] ps w = record { pool = ps; world = w; log = [] }
turns s (i ∷ is) ps w =
    let before = turns s is ps w in
    let m = turn s i before.pool before.world in
    record { pool = m.pool; world = m.world; log = m.log ++ before.log }

module _ {W : Type 0} (s : Server W) (view : W → Db) (Inv : Db → Type 0) (Can : Call → Type 0)
    (keeps : Keeps s view Inv Can) where
  -- A turn is a step of the pool, or nothing.
  abbrev Moved : W → Pool → Moment W → Type 0
  Moved w ps m =
      ((m.pool ≡ ps) × (m.world ≡ w) × (m.log ≡ []))
      ⊎ ((c : Call) × Step (view w) ps c (view m.world) m.pool × (m.log ≡ written c))

  Moved-Runs :
      {d : Db} {qs : Pool} (b m : Moment W)
      → Moved b.world b.pool m
      → Runs d qs (view b.world) b.pool b.log
      → Runs d qs (view m.world) m.pool (m.log ++ b.log)
  Moved-Runs b m (inl (q, v, l)) r = rw (q, v, l) r
  Moved-Runs b m (inr (c, st, l)) r = rw l (later r st)

  record Turned (w : W) (ps : Pool) (m : Moment W) : Type 0 where
    inv : Inv (view m.world)
    can : All (Calls Can) m.pool
    moved : Moved w ps m

  turn-Turned :
      (i : ℕ) (ps : Pool) (w : W) → Inv (view w) → All (Calls Can) ps → Turned w ps (turn s i ps w)
  turn-Turned i [] w h c = record { inv = h; can = tt; moved = inl (refl, refl, refl) }
  turn-Turned zero (ret o ∷ ps) w h c = record { inv = h; can = c; moved = inl (refl, refl, refl) }
  turn-Turned zero (stop o ∷ ps) w h c = record { inv = h; can = c; moved = inl (refl, refl, refl) }
  turn-Turned zero (call a k ∷ ps) w h (c, cs) =
      let (allowed, next) = keeps a w h c.0 in
      record {
        inv = next;
        can = (c.1 (s a w).0, cs);
        moved = inr (a, here (s a w).0 (view (s a w).1) allowed, refl);
      }
  turn-Turned (suc i) (p ∷ ps) w h (c, cs) =
      let t = turn-Turned i ps w h cs in
      record {
        inv = t.inv;
        can = (c, t.can);
        moved = elim t.moved [
          | inl (q, v, l) ↦ inl (ap (λ qs. p ∷ qs) q, v, l)
          | inr (a, st, l) ↦ inr (a, there st, l)
        ];
      }

  pub record Reached (w : W) (ps : Pool) (m : Moment W) : Type 0 where
    pub inv : Inv (view m.world)
    pub can : All (Calls Can) m.pool
    pub runs : Runs (view w) ps (view m.world) m.pool m.log

  -- A schedule leads to one of the moments that the steps allow.
  pub turns-Reached :
      (is : List ℕ) (ps : Pool) (w : W)
      → Inv (view w)
      → All (Calls Can) ps
      → Reached w ps (turns s is ps w)
  turns-Reached [] ps w h c = record { inv = h; can = c; runs = start }
  turns-Reached (i ∷ is) ps w h c =
      let r = turns-Reached is ps w h c in
      let b = turns s is ps w in
      let t = turn-Turned i b.pool b.world r.inv r.can in
      record {
        inv = t.inv;
        can = t.can;
        runs = Moved-Runs b (turn s i b.pool b.world) t.moved r.runs;
      }
