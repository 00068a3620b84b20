-- ===== src/Handlers/Record/Patch.antt =====
-- `UpdateRecord` (handlers/record.go): which fields a request changes.
use zerohttp_example.Base.{
  String, Bool, true, false, ◌≢◌, ◌≡◌, refl, ap, ◌∙◌, ◌⊎◌, inl, inr, Bool-cases, ◌==◌, none, some,
  ok, eq_iff,
}
use zerohttp_example.Base.Int.{pos}
use zerohttp_example.Http.{Request, Outcome, rendered, problem, failed}
use zerohttp_example.Http
use zerohttp_example.Models.{Record, Time, touch}
use zerohttp_example.Models.Platform.{Platform}
use zerohttp_example.Api.{UpdateRecordRequest, new_record_response}
use zerohttp_example.Store.Spec.{Db, with_record}
use zerohttp_example.Store.Rules.{on_get_record, on_pure, on_write}
use zerohttp_example.Prog.Always.{Ensures, outcome, always_mono}
use zerohttp_example.Handlers.Record.{apply_update, update_record}

-- How `UpdateRecord` ends on a request that has been bound, by what it makes of the stored record.
abbrev pub Applies : Platform → Request → UpdateRecordRequest → Db → Outcome → Db → Type 0
Applies pf r req d (rendered status b) e =
    (status ≡ 200)
    × (x : Record) × (t : Time) × (d.records (r.path_value "id") ≡ some x)
    × (b ≡ Http.record_body (new_record_response pf (apply_update pf x req r.has_body t)))
    × (e ≡ with_record d (apply_update pf x req r.has_body t))
Applies pf r req d (problem status detail) e =
    (e ≡ d)
    × (((status ≡ 400) × (r.path_value "id" ≡ ""))
        ⊎ ((status ≡ 404) × (d.records (r.path_value "id") ≡ none)))
Applies pf r req d (failed t) e =
    (e ≡ d)
    ⊎ ((x : Record) × (t : Time) × (d.records (r.path_value "id") ≡ some x)
        × (e ≡ with_record d (apply_update pf x req r.has_body t)))
Applies pf r req d o e = ⊥

-- A text of the request, if there is one, else the old one.
abbrev pub IsTextOr : String → String → String → Type 0
IsTextOr new old y = ((new ≢ "") × (y ≡ new)) ⊎ ((new ≡ "") × (y ≡ old))

-- What the record `x` becomes. A number of the request that is zero leaves the old one, but the stock
-- only if the request has no body.
pub record IsPatched (pf : Platform) (x : Record) (req : UpdateRecordRequest) (has_body : Bool)
    (t : Time) (y : Record) : Type 0 where
  pub id : y.id ≡ x.id
  pub created_at : y.base.created_at ≡ x.base.created_at
  pub updated_at : y.base.updated_at ≡ t
  pub archived : y.archived ≡ x.archived
  pub title : IsTextOr req.title x.title y.title
  pub artist : IsTextOr req.artist x.artist y.artist
  pub label : IsTextOr req.label x.label y.label
  pub catalog_number : IsTextOr req.catalog_number x.catalog_number y.catalog_number
  pub format : IsTextOr req.format x.format y.format
  pub genre : IsTextOr req.genre x.genre y.genre
  pub condition : IsTextOr req.condition x.condition y.condition
  pub description : IsTextOr req.description x.description y.description
  pub year : ((req.year ≢ pos 0) × (y.year ≡ req.year)) ⊎ ((req.year ≡ pos 0) × (y.year ≡ x.year))
  pub price :
      ((pf.float_eq req.price pf.float_zero ≡ false) × (y.price ≡ req.price))
      ⊎ ((pf.float_eq req.price pf.float_zero ≡ true) × (y.price ≡ x.price))
  pub stock :
      (((req.stock ≢ pos 0) ⊎ (has_body ≡ true)) × (y.stock ≡ req.stock))
      ⊎ ((req.stock ≡ pos 0) × (has_body ≡ false) × (y.stock ≡ x.stock))

-- How `UpdateRecord` ends on a request that has been bound.
abbrev pub Patches : Platform → Request → UpdateRecordRequest → Db → Outcome → Db → Type 0
Patches pf r req d (rendered status b) e =
    (status ≡ 200)
    × (x : Record) × (t : Time) × (y : Record) × (d.records (r.path_value "id") ≡ some x)
    × IsPatched pf x req r.has_body t y
    × (b ≡ Http.record_body (new_record_response pf y))
    × (e ≡ with_record d y)
Patches pf r req d (problem status detail) e =
    (e ≡ d)
    × (((status ≡ 400) × (r.path_value "id" ≡ ""))
        ⊎ ((status ≡ 404) × (d.records (r.path_value "id") ≡ none)))
Patches pf r req d (failed t) e =
    (e ≡ d)
    ⊎ ((x : Record) × (t : Time) × (y : Record) × (d.records (r.path_value "id") ≡ some x)
        × IsPatched pf x req r.has_body t y
        × (e ≡ with_record d y))
Patches pf r req d o e = ⊥

-- A request whose JSON names no field, read with Go's zero values.
abbrev pub no_fields : Platform → UpdateRecordRequest
no_fields pf = record {
  title = "";
  artist = "";
  year = pos 0;
  label = "";
  catalog_number = "";
  format = "";
  genre = "";
  condition = "";
  price = pf.float_zero;
  stock = pos 0;
  description = "";
}

module _ (pf : Platform) (r : Request) (d : Db) where
  update_record-Applies :
      (req : UpdateRecordRequest) → Ensures (update_record pf r (ok req)) d (Applies pf r req d)
  unfolding update_record
  update_record-Applies req = elim (Bool-cases (r.path_value "id" == "")) [
    | inl e ↦ rw e (refl, inl (refl, (eq_iff _ _).0 e))
    | inr e ↦ rw e (
        on_get_record _ (λ t. inl refl) (λ h. (refl, inr (refl, h)))
          λ x h.
            on_pure _ λ t.
              on_write _ (λ s. inl refl) (λ s. inr (x, t, h, refl)) (refl, x, t, h, refl, refl))
  ]

-- An update with a body that names no field changes no field but the stock, which becomes 0, and
-- `updated_at`; where zero is equal to itself for the float comparison.
pub apply_update-ClearsStock :
    (pf : Platform) (x : Record) (t : Time)
    → pf.float_eq pf.float_zero pf.float_zero ≡ true
    → apply_update pf x (no_fields pf) true t ≡ record x { base = touch x.base t; stock = pos 0 }
unfolding apply_update
apply_update-ClearsStock pf x t z = rw z refl

-- The stored record has lost its stock and nothing else.
abbrev pub LosesAllStock : Request → Db → Outcome → Db → Type 0
LosesAllStock r d (rendered status b) e =
    (x : Record) × (t : Time) × (d.records (r.path_value "id") ≡ some x)
    × (e ≡ with_record d (record x { base = touch x.base t; stock = pos 0 }))
LosesAllStock r d o e = Unit {0}

module _ (pf : Platform) (r : Request) (d : Db) (body : r.has_body ≡ true)
    (zero : pf.float_eq pf.float_zero pf.float_zero ≡ true) where
  patched-LosesAllStock :
      (o : Outcome) (e : Db) → Applies pf r (no_fields pf) d o e → LosesAllStock r d o e
  patched-LosesAllStock (rendered status b) e (_, x, t, h, _, saved) =
      (x, t, h, saved ∙ ap (with_record d) (rw body (apply_update-ClearsStock pf x t zero)))
  patched-LosesAllStock (problem _ _) e h = tt
  patched-LosesAllStock (failed _) e h = tt
  patched-LosesAllStock Http.no_content e h = tt
  patched-LosesAllStock (Http.paged _ _ _ _) e h = tt
  patched-LosesAllStock (Http.panicked _) e h = tt

  -- A PATCH of a record with a body that names no field takes its stock away: whenever `UpdateRecord`
  -- replies to it with a record, the stored record has the stock 0, and but for that and `updated_at`
  -- it is as before; where zero is equal to itself for the float comparison.
  pub update_record-LosesAllStock :
      Ensures (update_record pf r (ok (no_fields pf))) d (LosesAllStock r d)
  update_record-LosesAllStock =
      let whole = update_record pf r (ok (no_fields pf)) in
      always_mono whole d _ _ (λ f e. patched-LosesAllStock (outcome f) e)
        (update_record-Applies pf r d (no_fields pf))
