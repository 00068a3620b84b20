-- ===== src/Handlers/Inventory/Restock.antt =====
-- `RestockRecord` as a whole (handlers/inventory.go).
use zerohttp_example.Base.{
  ◌-◌, ◌^◌, ◌≡◌, refl, sym, ap, ◌⊎◌, inl, inr, Bool-cases, true, false, ◌==◌, none, some, ok,
  eq_iff,
}
use zerohttp_example.Base.Int.{ℤ, pos, ◌+ℤ◌, ◌≤ℤ◌, add_int, wrap64, wrap64-eq, int_laws}
use zerohttp_example.Http.{Request, Outcome, rendered, problem, failed}
use zerohttp_example.Http
use zerohttp_example.Models.{Record, Time, touch}
use zerohttp_example.Models.Platform.{Platform}
use zerohttp_example.Api.{RestockRequest}
use zerohttp_example.Store.Spec.{Db, with_record}
use zerohttp_example.Store.Rules.{on_get_record, on_pure, on_write}
use zerohttp_example.Prog.Always.{Ensures}
use zerohttp_example.Handlers.Inventory.{restock_record}

-- The record with `q` more units in stock.
abbrev pub restocked : Record → ℤ → Time → Record
restocked x q t = record x { base = touch x.base t; stock = x.stock +ℤ q }

-- The record of the path may be restocked: it is stored as `x` and not archived.
abbrev pub IsOpen : Request → Db → Record → Type 0
IsOpen r d x = (d.records (r.path_value "record_id") ≡ some x) × (x.archived ≡ false)

-- How `RestockRecord` ends on a request that has been bound.
abbrev pub Restocks : Request → ℤ → Db → Outcome → Db → Type 0
Restocks r q d (rendered status (Http.restock b)) e =
    (status ≡ 200)
    × (x : Record) × (t : Time) × IsOpen r d x
    × (e ≡ with_record d (restocked x q t))
    × (b.previous_stock ≡ x.stock)
    × (b.new_stock ≡ x.stock +ℤ q)
Restocks r q d (problem status detail) e =
    (e ≡ d)
    × (((status ≡ 400) × (r.path_value "record_id" ≡ ""))
        ⊎ ((status ≡ 404) × (d.records (r.path_value "record_id") ≡ none))
        ⊎ ((status ≡ 409)
            × (x : Record) × (d.records (r.path_value "record_id") ≡ some x)
            × (x.archived ≡ true)))
Restocks r q d (failed t) e =
    (e ≡ d) ⊎ ((x : Record) × (t : Time) × IsOpen r d x × (e ≡ with_record d (restocked x q t)))
Restocks r q d o e = ⊥

module _ (pf : Platform) (r : Request) (req : RestockRequest) (d : Db) where
  -- `RestockRecord` adds the quantity to the stock of the record of the path and reports the stock
  -- before and after; an archived record (409), an unknown one (404) and an empty id (400) are
  -- refused with nothing changed; a failed store call has made that one change or none. The stock
  -- is not below zero, the quantity neither, and their sum is an `int`.
  pub restock_record-Restocks :
      pos 0 ≤ℤ req.quantity
      → ((x : Record)
          → d.records (r.path_value "record_id") ≡ some x
          → (pos 0 ≤ℤ x.stock) × (x.stock +ℤ req.quantity ≤ℤ pos (2 ^ 63 - 1)))
      → Ensures (restock_record pf r (ok req)) d (Restocks r req.quantity d)
  unfolding restock_record add_int
  restock_record-Restocks q f = elim (Bool-cases (r.path_value "record_id" == "")) [
    | inl e ↦ rw e (refl, inl (refl, (eq_iff _ _).0 e))
    | inr e ↦ rw e (
        on_get_record _ (λ t. inl refl) (λ h. (refl, inr (inl (refl, h))))
          λ x h. elim (Bool-cases x.archived) [
            | inl a ↦ rw a (refl, inr (inr (refl, x, h, a)))
            | inr a ↦
                let fits : wrap64 (x.stock +ℤ req.quantity) ≡ x.stock +ℤ req.quantity =
                  wrap64-eq _ (f x h).1 (omega (int_laws, (f x h).0)) in
                rw a (
                  on_pure _ λ t. rw fits (
                    let made =
                      ap (λ b. with_record d (record (restocked x req.quantity t) { archived = b }))
                        (sym a) in
                    on_write _ (λ s. inl refl) (λ s. inr (x, t, (h, a), made))
                      (on_pure _ λ t'. (refl, x, t, (h, a), made, refl, refl))))
          ])
  ]
