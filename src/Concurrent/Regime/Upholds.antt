-- ===== src/Concurrent/Regime/Upholds.antt =====
-- What holds of the database while all handlers of a pool keep to the rules of a regime
-- (store/store.go).
use zerohttp_example.Base.{
  String, ◌≡◌, sym, subst, inl, inr, Bool, true, false, Option, none, some, List, All, Result, ok,
  err,
}
use zerohttp_example.Base.Int.{ℤ}
use zerohttp_example.Models.{User, Record, Order, Time}
use zerohttp_example.Store.{
  Call, Reply, get_user, save_user, get_user_by_email, get_all_users, get_record, save_record,
  get_all_records, get_filtered_records, decrement_stock, get_order, save_order, get_orders_by_user,
  get_all_orders, new_xid, now, read_random, hash_encoded, generate_access_token,
  generate_refresh_token,
}
use zerohttp_example.Store.Spec.{
  Db, Spec, Reads, Writes, Decrements, HasEmail, with_order, with_user, with_record, with_taken,
}
use zerohttp_example.Concurrent.{Pool, Step, here, there, Runs, start, later}
use zerohttp_example.Concurrent.Regime.{Regime, IfFound, Duties, Obeys}

module _ (g : Regime) where
  -- `Inv` holds of the database as long as the handlers obey.
  pub record Upholds (Inv : Db → Type 0) : Type 0 where
    pub new : (d : Db) (r : String) → Inv d → d.users r ≡ none → d.orders r ≡ none → g.IsNew r
    pub seen_user : (d : Db) (k : String) (u : User) → Inv d → d.users k ≡ some u → g.SeenUser u
    pub seen_order : (d : Db) (k : String) (o : Order) → Inv d → d.orders k ≡ some o → g.SeenOrder o
    pub saved_user : (d : Db) (u : User) → Inv d → g.SavedUser u → Inv (with_user d u)
    pub saved_order : (d : Db) (o : Order) → Inv d → g.SavedOrder o → Inv (with_order d o)
    pub seen_record :
        (d : Db) (k : String) (x : Record) → Inv d → d.records k ≡ some x → g.SeenRecord x
    pub saved_record : (d : Db) (x : Record) → Inv d → g.SavedRecord x → Inv (with_record d x)
    pub took :
        (d : Db) (k : String) (x : Record) (q : ℤ) (t : Time)
        → Inv d
        → d.records k ≡ some x
        → Inv (with_taken d k x q t)

  module _ (Inv : Db → Type 0) (up : Upholds Inv) (d : Db) (i : Inv d) where
    same : (e : Db) → e ≡ d → Inv e
    same e h = subst Inv (sym h) i

    Reads-Inv : {A : Type 0} (r : Result A) (P : A → Type 0) (e : Db) → Reads r P d e → Inv e
    Reads-Inv (ok a) P e h = same e h.1
    Reads-Inv (err t) P e h = same e h

    Writes-Inv : (r : Result (Unit {0})) (d' e : Db) → Inv d' → Writes r d d' e → Inv e
    Writes-Inv (ok _) d' e w h = subst Inv (sym h) w
    Writes-Inv (err t) d' e w (inl h) = same e h
    Writes-Inv (err t) d' e w (inr h) = subst Inv (sym h) w

    Decrements-Inv :
        (r : Result Bool) (id : String) (q : ℤ) (e : Db) → Decrements r d id q e → Inv e
    Decrements-Inv (ok true) id q e (x, t, a, _, h) = subst Inv (sym h) (up.took d id x q t i a)
    Decrements-Inv (ok false) id q e h = same e h.1
    Decrements-Inv (err _) id q e (inl h) = same e h
    Decrements-Inv (err _) id q e (inr (x, t, a, _, h)) = subst Inv (sym h) (up.took d id x q t i a)

    found_user :
        (id : String) (r : Result (Option User)) (e : Db)
        → Reads r (λ o. o ≡ d.users id) d e
        → IfFound g.SeenUser r
    found_user id (ok (some u)) e h = up.seen_user d id u i (sym h.0)
    found_user id (ok none) e h = tt
    found_user id (err t) e h = tt

    found_by_email :
        (m : String) (r : Result (Option User)) (e : Db)
        → Reads r (HasEmail d m) d e
        → IfFound g.SeenUser r
    found_by_email m (ok (some u)) e h = up.seen_user d u.id u i h.0.0
    found_by_email m (ok none) e h = tt
    found_by_email m (err t) e h = tt

    found_order :
        (id : String) (r : Result (Option Order)) (e : Db)
        → Reads r (λ o. o ≡ d.orders id) d e
        → IfFound g.SeenOrder r
    found_order id (ok (some o)) e h = up.seen_order d id o i (sym h.0)
    found_order id (ok none) e h = tt
    found_order id (err t) e h = tt

    found_record :
        (id : String) (r : Result (Option Record)) (e : Db)
        → Reads r (λ o. o ≡ d.records id) d e
        → IfFound g.SeenRecord r
    found_record id (ok (some x)) e h = up.seen_record d id x i (sym h.0)
    found_record id (ok none) e h = tt
    found_record id (err t) e h = tt

    -- The next call of a handler that does its duties.
    advance :
        (c : Call) (r : Reply c) (e : Db) (K : Reply c → Type 0)
        → Spec c d r e
        → Duties g c K
        → K r × Inv e
    advance (get_user id) r e K a h = (h r (found_user id r e a), Reads-Inv r _ e a)
    advance (save_user u) r e K a h = (h.1 r, Writes-Inv r _ e (up.saved_user d u i h.0) a)
    advance (get_user_by_email m) r e K a h = (h r (found_by_email m r e a), Reads-Inv r _ e a)
    advance (get_all_users f) r e K a h = (h r, Reads-Inv r _ e a)
    advance (get_record id) r e K a h = (h r (found_record id r e a), Reads-Inv r _ e a)
    advance (save_record y) r e K a h = (h.1 r, Writes-Inv r _ e (up.saved_record d y i h.0) a)
    advance get_all_records r e K a h = (h r, Reads-Inv r _ e a)
    advance (get_filtered_records f) r e K a h = (h r, Reads-Inv r _ e a)
    advance (decrement_stock id q) r e K a h = (h.1 r, Decrements-Inv r id q e a)
    advance (get_order id) r e K a h = (h r (found_order id r e a), Reads-Inv r _ e a)
    advance (save_order o) r e K a h = (h.1 r, Writes-Inv r _ e (up.saved_order d o i h.0) a)
    advance (get_orders_by_user f) r e K a h = (h r, Reads-Inv r _ e a)
    advance (get_all_orders f) r e K a h = (h r, Reads-Inv r _ e a)
    advance new_xid r e K a h = (h r (up.new d r i a.0 a.2), same e a.3)
    advance now r e K a h = (h r, same e a)
    advance (read_random n) r e K a h = (h r, same e a)
    advance (hash_encoded w) r e K a h = (h r, same e a)
    advance (generate_access_token c) r e K a h = (h r, same e a)
    advance (generate_refresh_token c) r e K a h = (h r, same e a)

  module _ (Inv : Db → Type 0) (up : Upholds Inv) where
    Step-Inv :
        (d : Db) {ps qs : Pool} {c : Call} {e : Db}
        → Inv d
        → Step d ps c e qs
        → All (Obeys g) ps
        → All (Obeys g) qs × Inv e
    Step-Inv d i (here {c = c} r e a) (m, ms) =
        let next = advance Inv up d i c r e _ a m in ((next.0, ms), next.1)
    Step-Inv d i (there st) (m, ms) = let next = Step-Inv d i st ms in ((m, next.0), next.1)

    -- Any calls of handlers that all obey.
    pub Runs-Inv :
        (d : Db) {ps qs : Pool} {e : Db} {log : List Order}
        → Inv d
        → All (Obeys g) ps
        → Runs d ps e qs log
        → All (Obeys g) qs × Inv e
    Runs-Inv d i m start = (m, i)
    Runs-Inv d i m (later {e = e} r st) = let (m', i') = Runs-Inv d i m r in Step-Inv e i' st m'
