-- ===== src/Mongo/Serve/Search.antt =====
-- `ListRecords` over `MongoStore` (handlers/record.go, store/mongo.go).
use zerohttp_example.Base.{
  ◌≡◌, refl, ◌↔◌, ◌⊎◌, inl, inr, false, some, List, [], ◌∷◌, ap, map, All, Result, ok, err,
}
use zerohttp_example.Base.Int.{ℤ, pos, ◌+ℤ◌, ◌≤ℤ◌, add_int}
use zerohttp_example.Http.{Outcome, paged, failed}
use zerohttp_example.Http
use zerohttp_example.Models.{Record}
use zerohttp_example.Models.Platform.{Platform, PageParams}
use zerohttp_example.Api.{ListRecordsRequest, new_record_response}
use zerohttp_example.Store.{get_filtered_records}
use zerohttp_example.Store.Spec.{Db, Reads, with_record}
use zerohttp_example.Prog.{Prog, call}
use zerohttp_example.Prog.Always.{outcome}
use zerohttp_example.Prog.Run.{Server, run}
use zerohttp_example.Handlers.Record.{filter_of, list_records}
use zerohttp_example.Mongo
use zerohttp_example.Mongo.{MongoStore, find_counted}
use zerohttp_example.Mongo.Queries.{Query, FindOptions, record_query, record_sort}
use zerohttp_example.Mongo.Driver.{Behaves, Matches, record_fields}
use zerohttp_example.Mongo.Filter.{Among, Wants, record_query-Wants, get_filtered_records-Wants}
use zerohttp_example.Mongo.Serve.{serve}

-- What a request asks of a record.
pub record IsAskedFor (pf : Platform) (req : ListRecordsRequest) (r : Record) : Type 0 where
  pub listed : r.archived ≡ false
  pub genre : Among req.genre r.genre
  pub decade :
      (req.decade ≡ pos 0) ⊎ ((req.decade ≤ℤ r.year) × (¬ (req.decade +ℤ pos 10 ≤ℤ r.year)))
  pub format : Among req.format r.format
  pub condition : Among req.condition r.condition
  pub artist : (req.artist ≡ "") ⊎ (r.artist ≡ req.artist)
  pub min_price :
      (pf.float_gt req.min_price pf.float_zero ≡ false)
      ⊎ (pf.float_gt req.min_price r.price ≡ false)
  pub max_price :
      (pf.float_gt req.max_price pf.float_zero ≡ false)
      ⊎ (pf.float_gt r.price req.max_price ≡ false)
  pub stock : (req.in_stock ≡ false) ⊎ (¬ (r.stock ≤ℤ pos 0))

-- The rest of a program after the answer to its call of `GetFilteredRecords`.
abbrev replied : Result (List Record × ℤ) → Prog Outcome → Prog Outcome
replied r (call (get_filtered_records f) k) = k r
replied r p = p

module _ {W : Type 0} (s : MongoStore W) (pf : Platform) (view : W → Db)
    (records : Behaves record_fields pf.float_gt s.records view
      (λ d. d.records)
      with_record
      (λ r. r.id))
    (env : Server W) (req : ListRecordsRequest) (w : W)
    (fits : add_int req.decade (pos 10) ≡ req.decade +ℤ pos 10) where
  abbrev pub params : PageParams
  params = pf.defaults (record { page = req.page; per_page = req.per_page })

  abbrev query : Query
  query = record_query pf (filter_of pf req params)

  -- The query matches the records that the request asks for, and no other.
  abbrev pub Selects : Query → Type 0
  Selects q = (r : Record) → Matches record_fields pf.float_gt q r ↔ IsAskedFor pf req r

  query-Selects : Selects query
  unfolding filter_of
  query-Selects r =
      let both = record_query-Wants pf r (filter_of pf req params) fits in
      (
        λ m.
            let h = both.0 m in
            record {
              listed = h.listed;
              genre = h.genre;
              decade = h.decade;
              format = h.format;
              condition = h.condition;
              artist = h.artist;
              min_price = h.min_price;
              max_price = h.max_price;
              stock = h.stock;
            },
        λ h. both.1 (record {
          listed = h.listed;
          genre = h.genre;
          decade = h.decade;
          format = h.format;
          condition = h.condition;
          artist = h.artist;
          min_price = h.min_price;
          max_price = h.max_price;
          stock = h.stock;
        }),
      )

  -- The reply shows what the driver has found for such a query, with what it has counted.
  abbrev pub Shows : Outcome → W → Type 0
  Shows (paged shown total status (Http.records bs)) v =
      (shown ≡ params)
      × (status ≡ 200)
      × (q : Query) × (o : FindOptions) × (u : W) × (rs : List Record) × Selects q
      × (s.records.count_documents q w ≡ (ok total, u))
      × (s.records.find q (some o) u ≡ (ok rs, v))
      × (o.sort ≡ record_sort req.sort)
      × ((o.limit, o.skip) ≡ pf.limit_skip (pf.defaults params))
      × (bs ≡ map (new_record_response pf) rs)
      × All (λ r. (view w).records r.id ≡ some r) rs
  Shows (failed t) v =
      (q : Query) × Selects q
      × (((s.records.count_documents q w).0 ≡ err t)
          ⊎ ((total : ℤ) × (u : W) × (o : FindOptions) × (s.records.count_documents q w
                ≡ (ok total, u))
              × ((s.records.find q (some o) u).0 ≡ err t)))
  Shows x v = ⊥

  abbrev options : FindOptions
  options =
      let limit_skip = pf.limit_skip (pf.defaults params) in
      record { sort = record_sort req.sort; limit = limit_skip.0; skip = limit_skip.1 }

  abbrev Kept : Result (List Record × ℤ) → W → Type 0
  Kept r v =
      Reads r
        (λ p.
          All (λ r. ((view w).records r.id ≡ some r) × Wants pf (filter_of pf req params) r) p.0)
        (view w) (view v)

  -- The rest of the handler shows what the driver has found.
  abbrev Rest : Result (List Record × ℤ) → W → Type 0
  Rest r v =
      let done = run (serve s pf env) (replied r (list_records pf (ok req))) v in
      Shows (outcome done.0) done.1 × (view done.1 ≡ view w)

  All-stored :
      (rs : List Record)
      → All (λ r. ((view w).records r.id ≡ some r) × Wants pf (filter_of pf req params) r) rs
      → All (λ r. (view w).records r.id ≡ some r) rs
  All-stored [] h = tt
  All-stored (r ∷ rs) (h, hs) = (h.0, All-stored rs hs)

  found-Shows :
      (total : ℤ) (u : W) (a : Result (List Record) × W)
      → s.records.count_documents query w ≡ (ok total, u)
      → s.records.find query (some options) u ≡ a
      → Kept (Mongo.with_total total a.0) a.1
      → Rest (Mongo.with_total total a.0) a.1
  unfolding list_records
  found-Shows total u (ok rs, v) c f own = (
    (refl, refl, query, options, u, rs, query-Selects, c, f, refl, refl, refl, All-stored rs own.0),
    own.1,
  )
  found-Shows total u (err t, v) c f same =
      ((query, query-Selects, inr (total, u, options, c, ap (λ a. a.0) f)), same)

  counted-Shows :
      (a : Result ℤ × W)
      → s.records.count_documents query w ≡ a
      → let answer = find_counted s.records query (some options) a.0 a.1 in
        Kept answer.0 answer.1 → Rest answer.0 answer.1
  unfolding list_records
  counted-Shows (ok total, u) c own =
      found-Shows total u (s.records.find query (some options) u) c refl own
  counted-Shows (err t, u) c same = ((query, query-Selects, inl (ap (λ a. a.0) c)), same)

  -- `ListRecords` over `MongoStore` shows what is asked for. Whenever it replies with a page, this is
  -- what the driver finds, sorted and from the place that the pagination says, for a query that
  -- matches just the records that the request asks for: not archived, of the genres, formats and
  -- conditions listed, of the decade, by the artist, within the prices and in stock, where the
  -- request says so; with what the driver counts for this query as the total. The records are stored,
  -- nothing is changed, and any other end is an error of the driver. The end of the decade is an
  -- `int`, and the driver behaves as documented.
  pub run-list_records-Shows :
      let done = run (serve s pf env) (list_records pf (ok req)) w in
      Shows (outcome done.0) done.1 × (view done.1 ≡ view w)
  unfolding list_records Mongo.get_filtered_records
  run-list_records-Shows =
      counted-Shows (s.records.count_documents query w) refl
        (get_filtered_records-Wants s pf view records (filter_of pf req params) w fits)
