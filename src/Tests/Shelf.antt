-- ===== src/Tests/Shelf.antt =====
-- Lists of records over `MongoStore` at concrete inputs: a driver with one record on its shelf.
use zerohttp_example.Base.{
  ◌≡◌, refl, sym, subst, ap, inl, inr, true, false, Bool, Bool-cases, not, ◌==◌, ◌&&◌,
  if◌then◌else◌, Option, none, some, List, [], ◌∷◌, All, Result, ok, err, arith, eq_iff,
}
use zerohttp_example.Base.Int.{pos, ◌+ℤ◌, add_int, wrap64}
use zerohttp_example.Models.{Record}
use zerohttp_example.Api.{ListInventoryRequest}
use zerohttp_example.Store.{get_all_records}
use zerohttp_example.Store.Spec.{Db, Spec, Reads, with_record}
use zerohttp_example.Prog.Always.{outcome}
use zerohttp_example.Prog.Run.{Server, run}
use zerohttp_example.Handlers.Record.{list_records}
use zerohttp_example.Handlers.Inventory.{list_inventory}
use zerohttp_example.Handlers.Inventory.Listing.{Lists, IsCountable, list_inventory-Lists}
use zerohttp_example.Mongo
use zerohttp_example.Mongo.{Collection, MongoStore}
use zerohttp_example.Mongo.Queries.{Query, is_bool}
use zerohttp_example.Mongo.Driver.{Behaves, Matches, record_fields}
use zerohttp_example.Mongo.Serve.{serve}
use zerohttp_example.Mongo.Serve.Search.{Shows, run-list_records-Shows}
use zerohttp_example.Tests.Fixtures.{platform, shop}
use zerohttp_example.Tests.Mongo.{server, records-Behaves}
use zerohttp_example.Tests.Records.{all_records}
use zerohttp_example.Tests.World.{outside, open_shop}

abbrev if_kept : {A : Type 0} → Bool → A → List A
if_kept true a = a ∷ []
if_kept false a = []

if_kept-All :
    {A : Type 0} (P : A → Type 0) (b : Bool) (a : A) → (b ≡ true → P a) → All P (if_kept b a)
if_kept-All P true a h = (h refl, tt)
if_kept-All P false a h = tt

abbrev on_shelf : Option Record → List Record
on_shelf none = []
on_shelf (some r) = if_kept (r.id == "blue" && not r.archived) r

abbrev look : Query → Db → Result (List Record)
look (is_bool k false ∷ []) d =
    if k == "archived" then ok (on_shelf (d.records "blue")) else err "no index"
look q d = err "no index"

abbrev shelf : Collection Db Record
shelf = record server.records {
  find = λ q o d. (look q d, d);
  count_documents = λ q d. (ok (pos 1), d);
}

abbrev shelved : MongoStore Db
shelved = record server { records = shelf }

abbrev Found : Db → Query → Result (List Record) → Type 0
Found d q r =
    Reads r (All (λ r. (d.records r.id ≡ some r) × Matches record_fields platform.float_gt q r)) d d

right : (a b : Bool) → (a && b) ≡ true → b ≡ true
right true b h = h
right false b h = absurd (cc h)

unarchived : (b : Bool) → not b ≡ true → b ≡ false
unarchived true h = absurd (cc h)
unarchived false h = refl

on_shelf-All :
    (d : Db) (o : Option Record)
    → d.records "blue" ≡ o
    → All
        (λ r.
          (d.records r.id ≡ some r)
          × Matches record_fields platform.float_gt (is_bool "archived" false ∷ []) r)
        (on_shelf o)
on_shelf-All d none h = tt
on_shelf-All d (some r) h = if_kept-All _ (r.id == "blue" && not r.archived) r λ e.
    let same : r.id ≡ "blue" = ground (arith, eq_iff r.id "blue") in
    (
      subst (λ k. d.records k ≡ some r) (sym same) h,
      (ap some (unarchived r.archived (right _ _ e)), tt),
    )

look-Found : (q : Query) (d : Db) → Found d q (look q d)
look-Found (is_bool k false ∷ []) d = elim (Bool-cases (k == "archived")) [
  | inl e ↦ rw e (on_shelf-All d (d.records "blue") refl, refl)
  | inr e ↦ rw e refl
]
look-Found q d = refl

shelf-Behaves :
    Behaves record_fields platform.float_gt shelf (λ d. d) (λ d. d.records) with_record (λ r. r.id)
shelf-Behaves = record {
  finds_one = records-Behaves.finds_one;
  finds = λ q o d. look-Found q d;
  counts = λ q d. refl;
  replaces = records-Behaves.replaces;
}

-- The calls that the store does not answer.
abbrev idle : Server Db
idle c d = ((outside c open_shop).0, d)

abbrev served : Server Db
served = serve shelved platform idle

abbrev ten_years : add_int (pos 0) (pos 10) ≡ pos 0 +ℤ pos 10
unfolding add_int wrap64 ◌+ℤ◌
ten_years = refl

run-list_records-Shows_example :
    let done = run served (list_records platform (ok all_records)) shop in
    Shows shelved platform
      (λ d. d)
      shelf-Behaves
      idle
      all_records
      shop
      ten_years
      (outcome done.0)
      done.1
    × (done.1 ≡ shop)
run-list_records-Shows_example =
    run-list_records-Shows shelved platform (λ d. d) shelf-Behaves idle all_records shop ten_years

abbrev twenty : ListInventoryRequest
twenty = record { page = pos 1; per_page = pos 20 }

stock_taking :
    Spec get_all_records shop (served get_all_records shop).0 (served get_all_records shop).1
unfolding Mongo.get_all_records
stock_taking = (((refl, refl), tt), refl)

few_records : IsCountable (served get_all_records shop).0
unfolding Mongo.get_all_records
few_records = ((omega arith, tt), omega arith)

list_inventory-Lists_example :
    let done = run served (list_inventory platform (ok twenty)) shop in
    Lists 0 20
      (platform.defaults (record { page = pos 1; per_page = pos 20 }))
      (served get_all_records shop).0
      shop
      (outcome done.0)
    × (done.1 ≡ shop)
list_inventory-Lists_example =
    list_inventory-Lists served (λ d. d) platform twenty shop 0 20 refl refl (omega arith)
      stock_taking few_records
