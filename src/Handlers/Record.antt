-- ===== src/Handlers/Record.antt =====
-- The handlers of /records (handlers/record.go).
pub mod Archive
pub mod Catalog
pub mod Patch
use zerohttp_example.Base.{
  Bool, true, not, ◌==◌, ◌&&◌, ◌||◌, if◌then◌else◌, Option, none, some, map, Result,
}
use zerohttp_example.Base.Int.{pos, eq_ℤ}
use zerohttp_example.Http.{Request, Outcome, problem, rendered, paged, no_content}
use zerohttp_example.Http
use zerohttp_example.Models.{Record, Time, touch}
use zerohttp_example.Models.New.{new_record}
use zerohttp_example.Models.Platform.{Platform, PageParams}
use zerohttp_example.Api.{
  CreateRecordRequest, UpdateRecordRequest, ListRecordsRequest, new_record_response,
}
use zerohttp_example.Store.{RecordFilter, save_record, get_filtered_records, now}
use zerohttp_example.Store
use zerohttp_example.Prog.{Prog, ret, stop, ask, try, found, refuse_if, ◌>>=◌, ◌>>◌}

module _ (pf : Platform) where
  unfoldable pub create_record : Result CreateRecordRequest → Prog Outcome
  unfolding new_record
  create_record bound = do
    req ← try bound
    r ← new_record (record {
      title = req.title;
      artist = req.artist;
      year = req.year;
      label = req.label;
      catalog_number = req.catalog_number;
      format = req.format;
      genre = req.genre;
      condition = req.condition;
      price = req.price;
      stock = req.stock;
      description = req.description;
    })
    try (← ask (save_record r))
    ret (rendered 201 (Http.record_body (new_record_response pf r)))

  -- The filter that `ListRecords` asks the store for.
  unfoldable pub filter_of : ListRecordsRequest → PageParams → RecordFilter
  filter_of req params = record {
    base = record { page = params.page; per_page = params.per_page };
    genres = req.genre;
    decade = req.decade;
    conditions = req.condition;
    formats = req.format;
    artist = req.artist;
    min_price = req.min_price;
    max_price = req.max_price;
    in_stock = req.in_stock;
    sort = req.sort;
  }

  unfoldable pub list_records : Result ListRecordsRequest → Prog Outcome
  unfolding filter_of
  list_records bound = do
    req ← try bound
    let params = pf.defaults (record { page = req.page; per_page = req.per_page })
    (records, total) ← try (← ask (get_filtered_records (filter_of req params)))
    ret (paged params total 200 (Http.records (map (new_record_response pf) records)))

  -- `!ok || record.Archived` is the refusal.
  unfoldable pub unarchived : Option Record → Prog Record
  unarchived none = stop (problem 404 "record not found")
  unarchived (some r) = do refuse_if r.archived 404 "record not found"; ret r

  unfoldable pub get_record : Request → Prog Outcome
  unfolding unarchived
  get_record r = do
    let id = r.path_value "id"
    refuse_if (id == "") 400 "record id is required"
    rec ← unarchived (← try (← ask (Store.get_record id)))
    ret (rendered 200 (Http.record_body (new_record_response pf rec)))

  -- The field updates of `UpdateRecord`, at the instant that `time.Now()` gives.
  unfoldable pub apply_update : Record → UpdateRecordRequest → Bool → Time → Record
  apply_update r req has_body updated_at = record r {
    base = touch r.base updated_at;
    title = if req.title == "" then r.title else req.title;
    artist = if req.artist == "" then r.artist else req.artist;
    year = if eq_ℤ req.year (pos 0) then r.year else req.year;
    label = if req.label == "" then r.label else req.label;
    catalog_number = if req.catalog_number == "" then r.catalog_number else req.catalog_number;
    format = if req.format == "" then r.format else req.format;
    genre = if req.genre == "" then r.genre else req.genre;
    condition = if req.condition == "" then r.condition else req.condition;
    price = if pf.float_eq req.price pf.float_zero then r.price else req.price;
    stock =
        if not (eq_ℤ req.stock (pos 0)) || (eq_ℤ req.stock (pos 0) && has_body)
        then req.stock
        else r.stock;
    description = if req.description == "" then r.description else req.description;
  }

  unfoldable pub update_record : Request → Result UpdateRecordRequest → Prog Outcome
  unfolding apply_update
  update_record r bound = do
    let id = r.path_value "id"
    refuse_if (id == "") 400 "record id is required"
    stored ← found (← try (← ask (Store.get_record id))) 404 "record not found"
    req ← try bound
    updated_at ← ask now
    let rec = apply_update stored req r.has_body updated_at
    try (← ask (save_record rec))
    ret (rendered 200 (Http.record_body (new_record_response pf rec)))

unfoldable pub archive_record : Request → Prog Outcome
archive_record r = do
  let id = r.path_value "id"
  refuse_if (id == "") 400 "record id is required"
  rec ← found (← try (← ask (Store.get_record id))) 404 "record not found"
  refuse_if rec.archived 409 "record is already archived"
  updated_at ← ask now
  try (← ask (save_record (record rec { base = touch rec.base updated_at; archived = true })))
  ret no_content
