-- ===== src/Tests/Records.antt =====
-- The theorems on records and the inventory at concrete inputs.
use zerohttp_example.Base.{◌≡◌, ◌-◌, ◌^◌, refl, true, false, some, ok, List, [], ◌∷◌, arith}
use zerohttp_example.Base.Int.{pos, ◌≤ℤ◌, ◌+ℤ◌}
use zerohttp_example.Models.{Record}
use zerohttp_example.Prog.Always.{Ensures}
use zerohttp_example.Handlers.Record.{update_record}
use zerohttp_example.Api.{CreateRecordRequest, ListRecordsRequest}
use zerohttp_example.Handlers.Record.Patch.{no_fields, LosesAllStock, update_record-LosesAllStock}
use zerohttp_example.Handlers.Inventory.{page_of, restock_record}
use zerohttp_example.Handlers.Inventory.Page.{page_of-take-drop}
use zerohttp_example.Handlers.Inventory.Restock.{Restocks, restock_record-Restocks}
use zerohttp_example.Tests.Fixtures.{platform, shop, request, vinyl, blue, moon}

update_record-LosesAllStock_example :
    Ensures
      (update_record platform (request "root" true "blue") (ok (no_fields platform)))
      shop
      (LosesAllStock (request "root" true "blue") shop)
update_record-LosesAllStock_example =
    update_record-LosesAllStock platform (request "root" true "blue") shop refl refl

abbrev stocks : List Record
stocks = blue ∷ vinyl "gone" 0 ∷ moon ∷ vinyl "many" 40 ∷ []

page_of-take-drop_example : page_of stocks (pos 3) (pos 3) ≡ some (vinyl "many" 40 ∷ [])
page_of-take-drop_example = page_of-take-drop stocks 3 3 (omega arith)

in_range :
    (x : Record)
    → shop.records "blue" ≡ some x
    → (pos 0 ≤ℤ x.stock) × (x.stock +ℤ pos 10 ≤ℤ pos (2 ^ 63 - 1))
unfolding ◌+ℤ◌
in_range x h = ground arith

restock_record-Restocks_example :
    Ensures
      (restock_record platform (request "root" true "blue") (ok (record { quantity = pos 10 })))
      shop
      (Restocks (request "root" true "blue") (pos 10) shop)
restock_record-Restocks_example =
    restock_record-Restocks platform (request "root" true "blue") (record { quantity = pos 10 })
      shop (omega arith) in_range

abbrev new_vinyl : CreateRecordRequest
new_vinyl = record {
  title = "Untrue";
  artist = "Burial";
  year = pos 2007;
  label = "Hyperdub";
  catalog_number = "HDBCD002";
  format = "lp";
  genre = "electronic";
  condition = "nm-";
  price = 27;
  stock = pos 5;
  description = "";
}

abbrev pub all_records : ListRecordsRequest
all_records = record {
  page = pos 1;
  per_page = pos 20;
  genre = [];
  decade = pos 0;
  condition = [];
  format = [];
  artist = "";
  min_price = 0;
  max_price = 0;
  in_stock = false;
  sort = "";
}
