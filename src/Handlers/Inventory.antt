-- ===== src/Handlers/Inventory.antt =====
-- The handlers of /inventory (handlers/inventory.go).
pub mod Counts
pub mod Page
pub mod Listing
pub mod Restock
use zerohttp_example.Base.{
  ◌-◌, ◌==◌, ◌&&◌, if◌then◌else◌, Option, none, some, List, [], ◌∷◌, ◌++◌, Result, length, take,
  drop,
}
use zerohttp_example.Base.Int.{ℤ, pos, eq_ℤ, ltb_ℤ, leb_ℤ, add_int, pos_part}
use zerohttp_example.Http.{Request, Outcome, rendered, paged, panicked}
use zerohttp_example.Http
use zerohttp_example.Models.{Record, touch}
use zerohttp_example.Models.Platform.{Platform}
use zerohttp_example.Api.{InventoryItem, ListInventoryRequest, RestockRequest}
use zerohttp_example.Store.{get_all_records, save_record, now}
use zerohttp_example.Store
use zerohttp_example.Prog.{Prog, ret, stop, ask, try, found, refuse_if, ◌>>=◌, ◌>>◌}

abbrev pub low_stock_threshold : ℤ
low_stock_threshold = pos 5

unfoldable pub inventory_item : Record → InventoryItem
inventory_item r = record {
  id = r.id;
  title = r.title;
  artist = r.artist;
  stock = r.stock;
  low_stock = ltb_ℤ (pos 0) r.stock && leb_ℤ r.stock low_stock_threshold;
  reorder_needed = eq_ℤ r.stock (pos 0);
}

-- The variables of the loop: the items so far and the two counters.
pub record Tally : Type 0 where
  pub items : List InventoryItem
  pub low_stock_count : ℤ
  pub out_of_stock_count : ℤ

-- The counters after one record.
unfoldable pub count_record : Record → ℤ → ℤ → ℤ × ℤ
unfolding add_int
count_record r low out =
    if eq_ℤ r.stock (pos 0)
    then (low, add_int out (pos 1))
    else if leb_ℤ r.stock low_stock_threshold
    then (add_int low (pos 1), out)
    else (low, out)

-- One round of the loop.
unfoldable pub tally_record : Tally → Record → Tally
unfolding count_record inventory_item
tally_record t r =
    let counts = count_record r t.low_stock_count t.out_of_stock_count in
    record {
      items = t.items ++ (inventory_item r ∷ []);
      low_stock_count = counts.0;
      out_of_stock_count = counts.1;
    }

unfoldable pub tally_records : Tally → List Record → Tally
unfolding tally_record
tally_records t [] = t
tally_records t (r ∷ rs) = tally_records (tally_record t r) rs

abbrev pub no_tally : Tally
no_tally = record { items = []; low_stock_count = pos 0; out_of_stock_count = pos 0 }

-- Go's `s[lo:hi]` on a slice whose capacity is its length; `none` is the run-time panic.
unfoldable pub slice {ℓ} : {A : Type ℓ} → List A → ℤ → ℤ → Option (List A)
slice xs lo hi =
    if leb_ℤ (pos 0) lo && (leb_ℤ lo hi && leb_ℤ hi (pos (length xs)))
    then some (take (pos_part hi - pos_part lo) (drop (pos_part lo) xs))
    else none

-- The page that starts at `offset`; past the last item it is empty.
unfoldable pub page_of {ℓ} : {A : Type ℓ} → List A → ℤ → ℤ → Option (List A)
unfolding slice add_int
page_of xs offset per_page =
    let total = pos (length xs) in
    let end = add_int offset per_page in
    if ltb_ℤ offset total then slice xs offset (if ltb_ℤ total end then total else end) else some []

abbrev pub or_out_of_range : {A : Type 0} → Option A → Prog A
or_out_of_range none = stop (panicked "slice bounds out of range")
or_out_of_range (some a) = ret a

module _ (pf : Platform) where
  unfoldable pub list_inventory : Result ListInventoryRequest → Prog Outcome
  unfolding tally_records page_of
  list_inventory bound = do
    req ← try bound
    records ← try (← ask get_all_records)
    let all = tally_records no_tally records
    let params = pf.defaults (record { page = req.page; per_page = req.per_page })
    items ← or_out_of_range (page_of all.items (pf.offset params) params.per_page)
    ret (
        paged params (pos (length all.items)) 200 (
          Http.inventory (record {
            items = items;
            low_stock = all.low_stock_count;
            out_of_stock = all.out_of_stock_count;
          })))

  unfoldable pub restock_record : Request → Result RestockRequest → Prog Outcome
  unfolding add_int
  restock_record r bound = do
    let id = r.path_value "record_id"
    refuse_if (id == "") 400 "record id is required"
    stored ← found (← try (← ask (Store.get_record id))) 404 "record not found"
    refuse_if stored.archived 409 "cannot restock archived record"
    req ← try bound
    updated_at ← ask now
    let rec = record stored {
      base = touch stored.base updated_at;
      stock = add_int stored.stock req.quantity;
    }
    try (← ask (save_record rec))
    restocked_at ← ask now
    ret (
        rendered 200 (
          Http.restock (record {
            id = rec.id;
            title = rec.title;
            previous_stock = stored.stock;
            new_stock = rec.stock;
            restocked_at = pf.rfc3339 restocked_at;
          })))
