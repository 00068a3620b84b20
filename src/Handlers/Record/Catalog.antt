-- ===== src/Handlers/Record/Catalog.antt =====
-- `CreateRecord` (handlers/record.go).
use zerohttp_example.Base.{◌≡◌, refl, ◌⊎◌, inl, inr, false, none, ok}
use zerohttp_example.Http.{Outcome, rendered, paged, failed}
use zerohttp_example.Http
use zerohttp_example.Models.{Record}
use zerohttp_example.Models.New.{new_record, new_base}
use zerohttp_example.Models.Platform.{Platform}
use zerohttp_example.Api.{CreateRecordRequest, new_record_response}
use zerohttp_example.Store.Spec.{Db, with_record}
use zerohttp_example.Store.Rules.{on_new_xid, on_pure, on_write}
use zerohttp_example.Prog.Always.{Ensures}
use zerohttp_example.Handlers.Record.{create_record}

-- `e` is `d` with the new record `x`, which is not archived.
pub record IsAdded (req : CreateRecordRequest) (d : Db) (x : Record) (e : Db) : Type 0 where
  pub is_new : d.records x.id ≡ none
  pub stored : e ≡ with_record d x
  pub title : x.title ≡ req.title
  pub artist : x.artist ≡ req.artist
  pub price : x.price ≡ req.price
  pub stock : x.stock ≡ req.stock
  pub listed : x.archived ≡ false

-- How `CreateRecord` ends on a request that has been bound.
abbrev pub Adds : Platform → CreateRecordRequest → Db → Outcome → Db → Type 0
Adds pf req d (rendered status b) e =
    (status ≡ 201)
    × (x : Record) × (b ≡ Http.record_body (new_record_response pf x))
    × IsAdded req d x e
Adds pf req d (failed t) e = (e ≡ d) ⊎ ((x : Record) × IsAdded req d x e)
Adds pf req d o e = ⊥

module _ (pf : Platform) (d : Db) where
  -- `CreateRecord` stores one new record that is not archived, with the title, artist, price and
  -- stock asked for, under an id that no record has, and shows it; a failed store call has made
  -- that one change or none.
  pub create_record-Adds :
      (req : CreateRecordRequest) → Ensures (create_record pf (ok req)) d (Adds pf req d)
  unfolding create_record new_record new_base
  create_record-Adds req = on_new_xid _ λ id _ fresh _ _. on_pure _ λ created. on_pure _ λ updated.
      let x : Record = record {
        base = record { id = id; mongo_id = ""; created_at = created; updated_at = updated };
        title = req.title;
        artist = req.artist;
        year = req.year;
        label = req.label;
        catalog_number = req.catalog_number;
        format = req.format;
        genre = req.genre;
        condition = req.condition;
        price = req.price;
        stock = req.stock;
        description = req.description;
        archived = false;
      } in
      let added : IsAdded req d x (with_record d x) = record {
        is_new = fresh;
        stored = refl;
        title = refl;
        artist = refl;
        price = refl;
        stock = refl;
        listed = refl;
      } in
      on_write _ (λ s. inl refl) (λ s. inr (x, added)) (refl, x, refl, added)
