-- ===== src/Handlers/Record/Archive.antt =====
-- `ArchiveRecord` and `GetRecord` (handlers/record.go).
use zerohttp_example.Base.{
  ◌≡◌, refl, sym, ap, ◌⊎◌, inl, inr, Bool-cases, true, false, ◌==◌, none, some, eq_iff,
}
use zerohttp_example.Http.{Request, Outcome, rendered, problem, failed, no_content}
use zerohttp_example.Http
use zerohttp_example.Models.{Record, Time, touch}
use zerohttp_example.Models.Platform.{Platform}
use zerohttp_example.Api.{new_record_response}
use zerohttp_example.Store.Spec.{Db, with_record}
use zerohttp_example.Store.Rules.{on_get_record, on_pure, on_write}
use zerohttp_example.Prog.Always.{Ensures}
use zerohttp_example.Handlers.Record.{get_record, archive_record, unarchived}

abbrev pub archived : Record → Time → Record
archived x t = record x { base = touch x.base t; archived = true }

-- The record of the path is stored as `x` and not archived.
abbrev pub IsListed : Request → Db → Record → Type 0
IsListed r d x = (d.records (r.path_value "id") ≡ some x) × (x.archived ≡ false)

-- How `ArchiveRecord` ends.
abbrev pub Archives : Request → Db → Outcome → Db → Type 0
Archives r d no_content e =
    (x : Record) × (t : Time) × IsListed r d x × (e ≡ with_record d (archived x t))
Archives r d (problem status detail) e =
    (e ≡ d)
    × (((status ≡ 400) × (r.path_value "id" ≡ ""))
        ⊎ ((status ≡ 404) × (d.records (r.path_value "id") ≡ none))
        ⊎ ((status ≡ 409)
            × (x : Record) × (d.records (r.path_value "id") ≡ some x)
            × (x.archived ≡ true)))
Archives r d (failed t) e =
    (e ≡ d) ⊎ ((x : Record) × (t : Time) × IsListed r d x × (e ≡ with_record d (archived x t)))
Archives r d o e = ⊥

-- What `GetRecord` shows.
abbrev pub ShowsRecord : Platform → Request → Db → Outcome → Type 0
ShowsRecord pf r d (rendered status b) =
    (status ≡ 200)
    × (x : Record) × IsListed r d x
    × (b ≡ Http.record_body (new_record_response pf x))
ShowsRecord pf r d (problem status detail) =
    ((status ≡ 400) × (r.path_value "id" ≡ ""))
    ⊎ ((status ≡ 404)
        × ((d.records (r.path_value "id") ≡ none)
            ⊎ ((x : Record) × (d.records (r.path_value "id") ≡ some x) × (x.archived ≡ true))))
ShowsRecord pf r d (failed t) = Unit {0}
ShowsRecord pf r d o = ⊥

module _ (r : Request) (d : Db) where
  -- `ArchiveRecord` sets `archived` and `updated_at` of the record of the path and stores it
  -- under its id, and changes nothing else; an archived record (409), an unknown one (404) and an empty id (400) are refused with
  -- nothing changed; a failed store call has made that one change or none.
  pub archive_record-Archives : Ensures (archive_record r) d (Archives r d)
  unfolding archive_record
  archive_record-Archives = elim (Bool-cases (r.path_value "id" == "")) [
    | inl e ↦ rw e (refl, inl (refl, (eq_iff _ _).0 e))
    | inr e ↦ rw e (
        on_get_record _ (λ t. inl refl) (λ h. (refl, inr (inl (refl, h))))
          λ x h. elim (Bool-cases x.archived) [
            | inl a ↦ rw a (refl, inr (inr (refl, x, h, a)))
            | inr a ↦ rw a (
                on_pure _ λ t.
                  on_write _ (λ s. inl refl) (λ s. inr (x, t, (h, a), refl)) (x, t, (h, a), refl))
          ])
  ]

  -- `GetRecord` shows the record of the path as it is stored, unless it is archived: an archived
  -- record is 404 like an unknown one, and an empty id 400. Nothing is changed.
  pub get_record-ShowsRecord :
      (pf : Platform) → Ensures (get_record pf r) d λ o e. (e ≡ d) × ShowsRecord pf r d o
  unfolding get_record unarchived
  get_record-ShowsRecord pf = elim (Bool-cases (r.path_value "id" == "")) [
    | inl e ↦ rw e (refl, inl (refl, (eq_iff _ _).0 e))
    | inr e ↦ rw e (
        on_get_record _ (λ t. (refl, tt)) (λ h. (refl, inr (refl, inl h)))
          λ x h. elim (Bool-cases x.archived) [
            | inl a ↦ rw a (refl, inr (refl, inr (x, h, a)))
            | inr a ↦ rw a (
              refl,
              (
                refl,
                x,
                (h, a),
                ap (λ b. Http.record_body (new_record_response pf (record x { archived = b })))
                    (sym a),
              ),
            )
          ])
  ]
