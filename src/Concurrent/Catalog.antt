-- ===== src/Concurrent/Catalog.antt =====
-- The stored records while the application serves any requests at the same time (app/server.go,
-- handlers/record.go, handlers/inventory.go), and the `validate` tags of models/record.go and
-- handlers/record.go.
use zerohttp_example.Base.{
  String, ◌≡◌, ◌≢◌, subst, ◌⊎◌, inl, inr, Bool, Bool-cases, ◌==◌, if◌then◌else◌, some, List, All,
  some-injective, eq_iff, arith,
}
use zerohttp_example.Base.Int.{ℤ, pos, ◌≤ℤ◌, eq_ℤ}
use zerohttp_example.Http.{Request}
use zerohttp_example.Models.{Record, Order, Time}
use zerohttp_example.Models.Catalog.{formats, genres, conditions}
use zerohttp_example.Models.Platform.{Platform}
use zerohttp_example.Api.{CreateRecordRequest, UpdateRecordRequest}
use zerohttp_example.Store.Spec.{Db, put, taken}
use zerohttp_example.Handlers.Record.{apply_update}
use zerohttp_example.App.Routes.{Route, Zerohttp, Binding, setup_routes}
use zerohttp_example.Concurrent.{Pool, Runs}
use zerohttp_example.Concurrent.Regime.{Regime}
use zerohttp_example.Concurrent.Regime.Upholds.{Upholds, Runs-Inv}
use zerohttp_example.Concurrent.Obeys.{any_count, Validity, any_request, Tolerates}
use zerohttp_example.Concurrent.Served.{Binds, IsPlain, served, served-Obeys}
use mathlib.Core.List.{Memᴰ}

-- `min=1900,max=2100`.
abbrev pub IsYear : ℤ → Type 0
IsYear y = (pos 1900 ≤ℤ y) × (y ≤ℤ pos 2100)

-- The tags of `Record` on the fields that are not free text, and that title and artist are there.
abbrev pub IsCatalogued : Record → Type 0
IsCatalogued x =
    (x.title ≢ "")
    × (x.artist ≢ "")
    × IsYear x.year
    × Memᴰ x.format formats
    × Memᴰ x.genre genres
    × Memᴰ x.condition conditions

abbrev pub AreCatalogued : Db → Type 0
AreCatalogued d = (k : String) (x : Record) → d.records k ≡ some x → IsCatalogued x

-- Of the tags of `CreateRecordRequest` those on the same fields.
abbrev pub IsValidRecord : CreateRecordRequest → Type 0
IsValidRecord r =
    (r.title ≢ "")
    × (r.artist ≢ "")
    × IsYear r.year
    × Memᴰ r.format formats
    × Memᴰ r.genre genres
    × Memᴰ r.condition conditions

-- `omitempty,oneof=...`.
abbrev pub IsGivenIn : String → List String → Type 0
IsGivenIn s xs = (s ≡ "") ⊎ Memᴰ s xs

-- Of the tags of `UpdateRecordRequest` those on the same fields.
abbrev pub IsValidPatch : UpdateRecordRequest → Type 0
IsValidPatch r =
    ((r.year ≡ pos 0) ⊎ IsYear r.year)
    × IsGivenIn r.format formats
    × IsGivenIn r.genre genres
    × IsGivenIn r.condition conditions

-- Only records as the tags have them are saved.
abbrev catalogued : Regime
catalogued = record {
  IsNew = λ r. Unit {0};
  SeenUser = λ u. Unit {0};
  SavedUser = λ u. Unit {0};
  SeenRecord = IsCatalogued;
  SavedRecord = IsCatalogued;
  SeenOrder = λ o. Unit {0};
  SavedOrder = λ o. Unit {0};
  Taken = λ q. Unit {0};
}

abbrev pub valid_records : Validity
valid_records = record any_request { FineRecord = IsValidRecord; FinePatch = IsValidPatch }

or_given-Mem :
    (s t : String) (xs : List String)
    → IsGivenIn s xs
    → Memᴰ t xs
    → Memᴰ (if s == "" then t else s) xs
or_given-Mem s t xs g m = elim (Bool-cases (s == "")) [
  | inl e ↦ rw e m
  | inr e ↦ rw e (elim g [ inl n ↦ cc ((eq_iff s "").1 n) | inr k ↦ k ])
]

or_given-nonempty : (s t : String) → t ≢ "" → (if s == "" then t else s) ≢ ""
or_given-nonempty s t n = elim (Bool-cases (s == "")) [
  | inl e ↦ rw e n
  | inr e ↦ rw e (λ m. cc ((eq_iff s "").1 m))
]

or_given-IsYear :
    (y z : ℤ) → (y ≡ pos 0) ⊎ IsYear y → IsYear z → IsYear (if eq_ℤ y (pos 0) then z else y)
or_given-IsYear y z (inl e) h = rw e h
or_given-IsYear y z (inr g) h = ground (arith)

apply_update-IsCatalogued :
    (pf : Platform) (x : Record) (req : UpdateRecordRequest) (has_body : Bool) (t : Time)
    → IsValidPatch req
    → IsCatalogued x
    → IsCatalogued (apply_update pf x req has_body t)
unfolding apply_update
apply_update-IsCatalogued pf x req has_body t (y, f, g, c)
      (title, artist, year, format, genre, condition) =
    (
      or_given-nonempty req.title x.title title,
      or_given-nonempty req.artist x.artist artist,
      or_given-IsYear req.year x.year y year,
      or_given-Mem req.format x.format formats f format,
      or_given-Mem req.genre x.genre genres g genre,
      or_given-Mem req.condition x.condition conditions c condition,
    )

catalogued-Tolerates : Tolerates catalogued valid_records
catalogued-Tolerates = record {
  signed_up = λ u n r. tt;
  updated = λ u n a t s. tt;
  deactivated = λ u t s. tt;
  recorded = λ base req f. f;
  patched = apply_update-IsCatalogued;
  archived = λ x t s. s;
  stocked = λ x n t s. s;
  taken = λ is f. any_count is;
  placed = λ o is new p named f c. tt;
  withdrawn = λ o t s p. tt;
}

put-AreCatalogued :
    (d : Db) (j : String) (x : Record)
    → AreCatalogued d
    → IsCatalogued x
    → (k : String) (y : Record) → put d.records j x k ≡ some y
    → IsCatalogued y
put-AreCatalogued d j x h s k y e = elim (Bool-cases (k == j)) [
  | inl same ↦ subst IsCatalogued (some-injective x y (rw same at e)) s
  | inr other ↦ h k y (rw other at e)
]

catalogued-Upholds : Upholds catalogued AreCatalogued
catalogued-Upholds = record {
  new = λ d r i u o. tt;
  seen_user = λ d k u i h. tt;
  seen_order = λ d k o i h. tt;
  saved_user = λ d u i s. i;
  saved_order = λ d o i s. i;
  seen_record = λ d k x i h. i k x h;
  saved_record = λ d x i s. put-AreCatalogued d x.id x i s;
  took = λ d k x q t i h. put-AreCatalogued d k (taken x q t) i (i k x h);
}

module _ (pf : Platform) (z : Zerohttp) (b : Binding) (ttl : ℤ) (plain : IsPlain z) where
  -- The catalog stays well-typed. While the application serves any requests to any of its routes at
  -- the same time, however their calls interleave and whichever of them fail: if every stored record
  -- has a title and an artist, a year from 1900 to 2100, and one of the formats, genres and grades of
  -- condition, at the beginning, then every stored record does at every moment. Requests to create
  -- and to update records bind only as their `validate` tags say, and what zerohttp gives passes
  -- requests on and makes no call that writes anything.
  pub Runs-AreCatalogued :
      (reqs : List (Route × Request)) {d e : Db} {qs : Pool} {log : List Order}
      → Binds b valid_records
      → All (λ q. Memᴰ q.0 (setup_routes pf z b ttl)) reqs
      → AreCatalogued d
      → Runs d (served reqs) e qs log
      → AreCatalogued e
  Runs-AreCatalogued reqs {d = d} bound m h r =
      (Runs-Inv catalogued AreCatalogued catalogued-Upholds d h
        (served-Obeys catalogued pf z b ttl plain bound catalogued-Tolerates reqs m) r).1
