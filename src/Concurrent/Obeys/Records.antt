-- ===== src/Concurrent/Obeys/Records.antt =====
-- The handlers that save records keep to the rules (handlers/record.go, handlers/inventory.go).
use zerohttp_example.Base.{
  ◌≡◌, refl, inl, inr, Bool-cases, ◌==◌, none, some, arith, Result, ok, err,
}
use zerohttp_example.Http.{Request}
use zerohttp_example.Models.New.{new_base}
use zerohttp_example.Models.Platform.{Platform}
use zerohttp_example.Handlers.Record.{create_record, update_record, archive_record}
use zerohttp_example.Handlers.Inventory.{restock_record}
use zerohttp_example.Models.New.{new_record}
use zerohttp_example.Api.{CreateRecordRequest, UpdateRecordRequest, RestockRequest}
use zerohttp_example.Base.Int.{add_int}
use zerohttp_example.Concurrent.Regime.{Regime, Obeys, Spares-Obeys}
use zerohttp_example.Concurrent.Obeys.{Validity, Tolerates}

module _ (g : Regime) {v : Validity} (tol : Tolerates g v) where
  pub create_record-Obeys :
      (pf : Platform) (b : Result CreateRecordRequest)
      → ((req : CreateRecordRequest) → b ≡ ok req → v.FineRecord req)
      → Obeys g (create_record pf b)
  unfolding create_record new_record new_base
  create_record-Obeys pf (err e) f = tt
  create_record-Obeys pf (ok req) f =
      λ id new created updated. (tol.recorded _ req (f req refl), elim [ ok _ ↦ tt | err _ ↦ tt ])

  pub update_record-Obeys :
      (pf : Platform) (r : Request) (b : Result UpdateRecordRequest)
      → ((req : UpdateRecordRequest) → b ≡ ok req → v.FinePatch req)
      → Obeys g (update_record pf r b)
  unfolding update_record
  update_record-Obeys pf r (err e) f = Spares-Obeys g (update_record pf r (err e)) (ground arith)
  update_record-Obeys pf r (ok req) f = elim (Bool-cases (r.path_value "id" == "")) [
    | inl e ↦ rw e tt
    | inr e ↦ rw e (elim [
      | err t ↦ λ s. tt
      | ok none ↦ λ s. tt
      | ok (some x) ↦
          λ s t. (tol.patched pf x req _ t (f req refl) s, elim [ ok _ ↦ tt | err _ ↦ tt ])
    ])
  ]

  pub archive_record-Obeys : (r : Request) → Obeys g (archive_record r)
  unfolding archive_record
  archive_record-Obeys r = elim (Bool-cases (r.path_value "id" == "")) [
    | inl e ↦ rw e tt
    | inr e ↦ rw e (elim [
      | err t ↦ λ s. tt
      | ok none ↦ λ s. tt
      | ok (some x) ↦ λ s. elim (Bool-cases x.archived) [
        | inl a ↦ rw a tt
        | inr a ↦ rw a (λ t. (tol.archived x t s, elim [ ok _ ↦ tt | err _ ↦ tt ]))
      ]
    ])
  ]

  pub restock_record-Obeys :
      (pf : Platform) (r : Request) (b : Result RestockRequest) → Obeys g (restock_record pf r b)
  unfolding restock_record
  restock_record-Obeys pf r (err e) = Spares-Obeys g (restock_record pf r (err e)) (ground arith)
  restock_record-Obeys pf r (ok req) = elim (Bool-cases (r.path_value "record_id" == "")) [
    | inl e ↦ rw e tt
    | inr e ↦ rw e (elim [
      | err t ↦ λ s. tt
      | ok none ↦ λ s. tt
      | ok (some x) ↦ λ s. elim (Bool-cases x.archived) [
        | inl a ↦ rw a tt
        | inr a ↦ rw a (λ t. (
          rw a at (tol.stocked x (add_int x.stock req.quantity) t s),
          elim [ ok _ ↦ λ t. tt | err _ ↦ tt ],
        ))
      ]
    ])
  ]
