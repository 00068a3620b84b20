-- ===== src/Concurrent/Stale.antt =====
-- A document that a handler has read and saves again, while another handler has changed it
-- (`RestockRecord` in handlers/inventory.go, `UpdateUser` in handlers/user.go).
use zerohttp_example.Base.{
  ◌≡◌, ◌≢◌, refl, sym, subst, inl, inr, Bool-cases, true, false, ◌==◌, Option, some, List, [], ◌∷◌,
  ◌++◌, eq_iff, Result, ok,
}
use zerohttp_example.Base.Int.{add_int}
use zerohttp_example.Http.{Request, Outcome, rendered, no_content}
use zerohttp_example.Http
use zerohttp_example.Models.{User, Record, Order, Time, touch, update}
use zerohttp_example.Models.Platform.{Platform}
use zerohttp_example.Api.{RestockRequest, UpdateUserRequest, new_user_response}
use zerohttp_example.Store.{Call, Reply, get_record, save_record, get_user, save_user, now}
use zerohttp_example.Store.Spec.{Db, Spec, with_record}
use zerohttp_example.Prog.{Prog, ret, call, Flow, ran, ask, try, ◌>>=◌, ◌>>◌}
use zerohttp_example.Prog.Sometimes.{Sometimes}
use zerohttp_example.Handlers.Inventory.{restock_record}
use zerohttp_example.Handlers.User.{update_user, deactivate_user, address_or}
use zerohttp_example.Concurrent.{here, there, Runs, start, later, written}
use text.Mathlib.TextPositions.{eq_refl}
use zerohttp_example.Concurrent.Turns.{ended, Sometimes-Runs}

-- Two handlers: the first makes its first call, then the other one runs to its end, then the first.
module _ (c : Call) (k : Reply c → Prog Outcome) (a : Reply c) (d : Db) (s : Spec c d a d)
    (rest : Prog Outcome) (goes : k a ≡ rest) (p : Prog Outcome) (Q : Flow Outcome → Db → Type 0)
    (R : Db → Flow Outcome → Db → Type 0) where
  overtaken :
      Sometimes p d Q
      → ((m : Db) → Sometimes rest m (R m))
      → (v : Flow Outcome) × (m : Db) × (w : Flow Outcome) × (e : Db) × (log : List Order) × Q v m
        × R m w e
        × Runs d (call c k ∷ p ∷ []) e (ended w ∷ ended v ∷ []) log
  overtaken h r =
      let begun : Runs d (call c k ∷ p ∷ []) d (k a ∷ p ∷ []) (written c ++ []) =
        later start (here {c = c} {k = k} a d s) in
      let (v, m, _, q, between) =
        Sometimes-Runs (λ o. rest ∷ o ∷ []) (λ c k a d e s. there (here a e s)) p d Q
          (subst (λ o. Runs d (call c k ∷ p ∷ []) d (o ∷ p ∷ []) (written c ++ [])) goes begun) h in
      let (w, e, log, x, end) =
        Sometimes-Runs (λ o. o ∷ ended v ∷ []) (λ c k a d e s. here a e s) rest m (R m) between
          (r m) in
      (v, m, w, e, log, q, x, end)

-- The record as `RestockRecord` saves it, and the reply.
abbrev pub restocked : Record → RestockRequest → Time → Record
restocked x req t = record x { base = touch x.base t; stock = add_int x.stock req.quantity }

abbrev pub restock_reply : Platform → Record → RestockRequest → Time → Outcome
restock_reply pf x req t = rendered 200 (
    Http.restock (record {
      id = x.id;
      title = x.title;
      previous_stock = x.stock;
      new_stock = add_int x.stock req.quantity;
      restocked_at = pf.rfc3339 t;
    }))

-- `RestockRecord` has replied 200 and has saved `x` with more in stock, in the database `m`.
abbrev pub SavesRestocked : Platform → Record → RestockRequest → Db → Flow Outcome → Db → Type 0
SavesRestocked pf x req m w e =
    (t : Time) × (w ≡ ran (restock_reply pf x req t)) × (e ≡ with_record m (restocked x req t))

-- On some run of the two handlers the other one, `p`, comes to an end that `Q` allows, with the
-- database `m`, and the restock then saves the record as it was in `d`, with more in stock.
abbrev pub CanOverwrite :
    Platform
    → Request
    → RestockRequest
    → Prog Outcome
    → (Flow Outcome → Db → Type 0)
    → Db
    → Record
    → Type 0
CanOverwrite pf r req p Q d x =
    (v : Flow Outcome) × (m : Db) × (w : Flow Outcome) × (e : Db) × (log : List Order) × Q v m
    × SavesRestocked pf x req m w e
    × Runs d (restock_record pf r (ok req) ∷ p ∷ []) e (ended w ∷ ended v ∷ []) log

abbrev restocking : Platform → Record → RestockRequest → Prog Outcome
restocking pf x req = do
  updated_at ← ask now
  try (← ask (save_record (restocked x req updated_at)))
  restocked_at ← ask now
  ret (restock_reply pf x req restocked_at)

restock_record-Reads :
    (pf : Platform) (r : Request) (req : RestockRequest) (x : Record)
    → r.path_value "record_id" ≢ ""
    → x.archived ≡ false
    → (k : Result (Option Record) → Prog Outcome) × (restock_record pf r (ok req)
        ≡ call (get_record (r.path_value "record_id")) k)
      × (k (ok (some x)) ≡ restocking pf x req)
unfolding restock_record
restock_record-Reads pf r req x named sold = elim (Bool-cases (r.path_value "record_id" == "")) [
  | inl e ↦ absurd (named ((eq_iff _ _).0 e))
  | inr e ↦ rw e (_, refl, rw sold refl)
]

-- A restock undoes what was done to the record while it ran. For every other handler and every way
-- in which that one can end from here, there is an interleaving with `RestockRecord` of a stored
-- record that is not archived, in which the other handler ends like that, and then the restock
-- replies 200 and saves the record as it was before both, with the quantity added to the stock: a
-- sale of the other handler is lost.
pub restock_record-CanOverwrite :
    (pf : Platform) (r : Request) (req : RestockRequest) (d : Db) (x : Record) (p : Prog Outcome)
    (Q : Flow Outcome → Db → Type 0)
    → r.path_value "record_id" ≢ ""
    → d.records (r.path_value "record_id") ≡ some x
    → x.archived ≡ false
    → Sometimes p d Q
    → CanOverwrite pf r req p Q d x
restock_record-CanOverwrite pf r req d x p Q named h there_is q =
    let (k, begins, goes) = restock_record-Reads pf r req x named there_is in
    rw begins (
      overtaken (get_record (r.path_value "record_id")) k (ok (some x)) d (sym h, refl)
        (restocking pf x req) goes p Q (SavesRestocked pf x req) q
        λ m. (0, m, refl, (ok tt, _, refl, (0, _, refl, (0, refl, refl)))))

abbrev updating : Platform → User → UpdateUserRequest → Prog Outcome
updating pf u req = do
  updated_at ← ask now
  let user' = update u req.name (address_or req.address u.address) updated_at
  try (← ask (save_user user'))
  ret (rendered 200 (Http.user (new_user_response pf user')))

update_user-Reads :
    (pf : Platform) (r : Request) (req : UpdateUserRequest) (u : User)
    → r.path_value "id" ≢ ""
    → (k : Result (Option User) → Prog Outcome) × (update_user pf r (ok req)
        ≡ call (get_user (r.path_value "id")) k)
      × (k (ok (some u)) ≡ updating pf u req)
unfolding update_user
update_user-Reads pf r req u named = elim (Bool-cases (r.path_value "id" == "")) [
  | inl e ↦ absurd (named ((eq_iff _ _).0 e))
  | inr e ↦ rw e (_, refl, refl)
]

deactivate_user-Sometimes :
    (r : Request) (d : Db) (u : User)
    → r.path_value "id" ≢ ""
    → d.users (r.path_value "id") ≡ some u
    → Sometimes (deactivate_user r) d (λ v e. v ≡ ran no_content)
unfolding deactivate_user
deactivate_user-Sometimes r d u named h = elim (Bool-cases (r.path_value "id" == "")) [
  | inl e ↦ absurd (named ((eq_iff _ _).0 e))
  | inr e ↦ rw e (ok (some u), d, (sym h, refl), (0, d, refl, (ok tt, _, refl, refl)))
]

-- `UpdateUser` has replied 200, and the account is stored and active.
abbrev pub StaysActive : User → Flow Outcome → Db → Type 0
StaysActive u (ran (rendered status body)) e =
    (status ≡ 200) × (y : User) × (e.users u.id ≡ some y) × (y.active ≡ true)
StaysActive u _ e = ⊥

abbrev pub CanReactivate : Platform → Request → UpdateUserRequest → Request → Db → User → Type 0
CanReactivate pf r req s d u =
    (w : Flow Outcome) × (e : Db) × (log : List Order) × StaysActive u w e
    × Runs d (update_user pf r (ok req) ∷ deactivate_user s ∷ []) e (ended w ∷ ret no_content ∷ [])
        log

-- An update of a user can undo a deactivation. There is an interleaving of `UpdateUser` and
-- `DeactivateUser` for one stored active account in which the deactivation replies 204 and the update
-- 200, and after which the account is active.
pub update_user-CanReactivate :
    (pf : Platform) (r s : Request) (req : UpdateUserRequest) (d : Db) (u : User)
    → r.path_value "id" ≢ ""
    → s.path_value "id" ≢ ""
    → d.users (r.path_value "id") ≡ some u
    → d.users (s.path_value "id") ≡ some u
    → u.active ≡ true
    → CanReactivate pf r req s d u
unfolding update
update_user-CanReactivate pf r s req d u nr ns hr hs on =
    let (k, begins, goes) = update_user-Reads pf r req u nr in
    let (v, m, w, e, log, done, kept, run) =
      overtaken (get_user (r.path_value "id")) k (ok (some u)) d (sym hr, refl) (updating pf u req)
        goes (deactivate_user s) (λ v e. v ≡ ran no_content) (λ m. StaysActive u)
        (deactivate_user-Sometimes s d u ns hs)
        λ m. (
          0,
          m,
          refl,
          (
            ok tt,
            _,
            refl,
            (
              refl,
              update u req.name (address_or req.address u.address) 0,
              rw (eq_refl u.id) refl,
              on,
            ),
          ),
        ) in
    let ps = call (get_user (r.path_value "id")) k ∷ deactivate_user s ∷ [] in
    rw begins (w, e, log, kept, subst (λ v. Runs d ps e (ended w ∷ ended v ∷ []) log) done run)
