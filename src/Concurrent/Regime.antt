-- ===== src/Concurrent/Regime.antt =====
-- Rules for handlers that run at the same time, on what they save, call by call (store/store.go).
pub mod Upholds
use zerohttp_example.Base.{
  String, ◌≡◌, refl, sym, ap, subst, inl, inr, Bool, true, false, Option, none, some, List, All,
  Result, ok, err,
}
use zerohttp_example.Base.Int.{ℤ}
use zerohttp_example.Models.{User, Record, Order, Time}
use zerohttp_example.Store.{
  Call, Reply, get_user, save_user, get_user_by_email, get_all_users, get_record, save_record,
  get_all_records, get_filtered_records, decrement_stock, get_order, save_order, get_orders_by_user,
  get_all_orders, new_xid, now, read_random, hash_encoded, generate_access_token,
  generate_refresh_token,
}
use zerohttp_example.Store.Spec.{
  Db, Spec, Reads, Writes, Decrements, HasEmail, with_order, with_user, with_record, with_taken,
}
use zerohttp_example.Prog.{Prog, ret, stop, call, ◌>>=◌}
use zerohttp_example.Concurrent.{Pool, Step, here, there, Runs, start, later}
use zerohttp_example.Concurrent.Spares.{NoSave, Spares}

-- What is known of a new id and of a document that has been read, and what a document has to be to be
-- saved, or a quantity to be taken.
pub record Regime : Type 1 where
  pub IsNew : String → Type 0
  pub SeenUser : User → Type 0
  pub SavedUser : User → Type 0
  pub SeenRecord : Record → Type 0
  pub SavedRecord : Record → Type 0
  pub SeenOrder : Order → Type 0
  pub SavedOrder : Order → Type 0
  pub Taken : ℤ → Type 0

-- If a lookup has found something, it satisfies `P`.
abbrev pub IfFound : {A : Type 0} → (A → Type 0) → Result (Option A) → Type 0
IfFound P (ok (some a)) = P a
IfFound P (ok none) = Unit {0}
IfFound P (err t) = Unit {0}

module _ (g : Regime) where
  -- The duties of a handler at a call; `K r` is the rest, after the reply `r`.
  abbrev pub Duties : (c : Call) → (Reply c → Type 0) → Type 0
  Duties new_xid K = (r : String) → g.IsNew r → K r
  Duties (get_user id) K = (r : Result (Option User)) → IfFound g.SeenUser r → K r
  Duties (get_user_by_email m) K = (r : Result (Option User)) → IfFound g.SeenUser r → K r
  Duties (save_user u) K = g.SavedUser u × ((r : Result (Unit {0})) → K r)
  Duties (get_record id) K = (r : Result (Option Record)) → IfFound g.SeenRecord r → K r
  Duties (save_record x) K = g.SavedRecord x × ((r : Result (Unit {0})) → K r)
  Duties (get_order id) K = (r : Result (Option Order)) → IfFound g.SeenOrder r → K r
  Duties (save_order o) K = g.SavedOrder o × ((r : Result (Unit {0})) → K r)
  Duties (decrement_stock id q) K = g.Taken q × ((r : Result Bool) → K r)
  Duties c K = (r : Reply c) → K r

  abbrev pub Obeys : {A : Type 0} → Prog A → Type 0
  Obeys (ret a) = Unit {0}
  Obeys (stop o) = Unit {0}
  Obeys (call c f) = Duties c (λ r. Obeys (f r))

  Duties-mono :
      (c : Call) (K L : Reply c → Type 0) → ((r : Reply c) → K r → L r) → Duties c K → Duties c L
  Duties-mono new_xid K L w h = λ r n. w r (h r n)
  Duties-mono (get_user id) K L w h = λ r s. w r (h r s)
  Duties-mono (get_user_by_email m) K L w h = λ r s. w r (h r s)
  Duties-mono (save_user u) K L w h = (h.0, λ r. w r (h.1 r))
  Duties-mono (get_record id) K L w h = λ r s. w r (h r s)
  Duties-mono (save_record x) K L w h = (h.0, λ r. w r (h.1 r))
  Duties-mono (get_order id) K L w h = λ r s. w r (h r s)
  Duties-mono (save_order o) K L w h = (h.0, λ r. w r (h.1 r))
  Duties-mono (decrement_stock id q) K L w h = (h.0, λ r. w r (h.1 r))
  Duties-mono c K L w h = λ r. w r (h r)

  -- Every value of the program satisfies `Q`.
  abbrev pub Returns : {A : Type 0} → (A → Type 0) → Prog A → Type 0
  Returns Q (ret a) = Q a
  Returns Q (stop o) = Unit {0}
  Returns Q (call c f) = (r : Reply c) → Returns Q (f r)

  pub Returns-bind :
      {A B : Type 0} (p : Prog A) (f : A → Prog B) (Q : A → Type 0) (R : B → Type 0)
      → Returns Q p
      → ((a : A) → Q a → Returns R (f a))
      → Returns R (p >>= f)
  Returns-bind (ret a) f Q R h w = w a h
  Returns-bind (stop o) f Q R h w = tt
  Returns-bind (call c k) f Q R h w = λ r. Returns-bind (k r) f Q R (h r) w

  pub Returns-any : {A : Type 0} (p : Prog A) → Returns (λ _. Unit {0}) p
  Returns-any (ret a) = tt
  Returns-any (stop o) = tt
  Returns-any (call c f) = λ r. Returns-any (f r)

  pub Obeys-bind :
      {A B : Type 0} (p : Prog A) (f : A → Prog B) (Q : A → Type 0)
      → Obeys p
      → Returns Q p
      → ((a : A) → Q a → Obeys (f a))
      → Obeys (p >>= f)
  Obeys-bind (ret a) f Q h q w = w a q
  Obeys-bind (stop o) f Q h q w = tt
  Obeys-bind (call c k) f Q h q w = Duties-mono c _ _ (λ r a. Obeys-bind (k r) f Q a (q r) w) h

  NoSave-Duties : (c : Call) (K : Reply c → Type 0) → NoSave c → ((r : Reply c) → K r) → Duties c K
  NoSave-Duties new_xid K n h = λ r _. h r
  NoSave-Duties (get_user id) K n h = λ r _. h r
  NoSave-Duties (get_user_by_email m) K n h = λ r _. h r
  NoSave-Duties (save_user u) K n h = absurd n
  NoSave-Duties (get_record id) K n h = λ r _. h r
  NoSave-Duties (save_record x) K n h = absurd n
  NoSave-Duties (get_order id) K n h = λ r _. h r
  NoSave-Duties (save_order o) K n h = absurd n
  NoSave-Duties (decrement_stock id q) K n h = absurd n
  NoSave-Duties c K n h = h

  pub Spares-Obeys : {A : Type 0} (p : Prog A) → Spares p → Obeys p
  Spares-Obeys (ret a) h = tt
  Spares-Obeys (stop o) h = tt
  Spares-Obeys (call c f) h = NoSave-Duties c _ h.0 λ r. Spares-Obeys (f r) (h.1 r)
