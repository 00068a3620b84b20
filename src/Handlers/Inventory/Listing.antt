-- ===== src/Handlers/Inventory/Listing.antt =====
-- `ListInventory` as a whole (handlers/inventory.go).
use zerohttp_example.Base.{
  ℕ, suc, ◌+◌, ◌<◌, ◌^◌, ◌≡◌, refl, ap, false, Bool, ◌&&◌, some, List, [], ◌∷◌, map, length, take,
  drop, All, Result, ok, err, arith,
}
use zerohttp_example.Base.Int.{ℤ, pos, ◌≤ℤ◌, ltb_ℤ, leb_ℤ, eq_ℤ}
use zerohttp_example.Http.{Outcome, paged, failed}
use zerohttp_example.Http
use zerohttp_example.Models.{Record}
use zerohttp_example.Models.Platform.{Platform, PageParams}
use zerohttp_example.Api.{InventoryItem, ListInventoryRequest}
use zerohttp_example.Store.{get_all_records}
use zerohttp_example.Store.Spec.{Db, Spec}
use zerohttp_example.Prog.{Prog, call}
use zerohttp_example.Prog.Always.{outcome}
use zerohttp_example.Prog.Run.{Server, run}
use zerohttp_example.Handlers.Inventory.{
  inventory_item, page_of, tally_records, no_tally, list_inventory,
}
use zerohttp_example.Handlers.Inventory.Counts.{flag, count, is_low, is_out, tally_records-Counts}
use zerohttp_example.Handlers.Inventory.Page.{page_of-take-drop}

-- From one to five are left.
abbrev pub is_running_out : Record → Bool
is_running_out r = leb_ℤ (pos 1) r.stock && leb_ℤ r.stock (pos 5)

abbrev pub is_sold_out : Record → Bool
is_sold_out r = eq_ℤ r.stock (pos 0)

-- How many records pass the test.
abbrev pub number : (Record → Bool) → List Record → ℕ
number f [] = 0
number f (r ∷ rs) = flag (f r) + number f rs

abbrev pub item_of : Record → InventoryItem
item_of r = record {
  id = r.id;
  title = r.title;
  artist = r.artist;
  stock = r.stock;
  low_stock = is_running_out r;
  reorder_needed = is_sold_out r;
}

-- The reply to what the store has answered: items `o` to `o + p` of the records of the answer, which
-- are stored and not archived, with their number as the total and the counters of all of them.
abbrev pub Lists : ℕ → ℕ → PageParams → Result (List Record) → Db → Outcome → Type 0
Lists o p params (ok rs) d x =
    All (λ r. (d.records r.id ≡ some r) × (r.archived ≡ false)) rs
    × (x
        ≡ paged params (pos (length rs)) 200 (
            Http.inventory (record {
              items = take p (drop o (map item_of rs));
              low_stock = pos (number is_running_out rs);
              out_of_stock = pos (number is_sold_out rs);
            })))
Lists o p params (err t) d x = x ≡ failed t

-- No stock is below zero, and there are fewer than 2^63 records.
abbrev pub IsCountable : Result (List Record) → Type 0
IsCountable (ok rs) = All (λ r. pos 0 ≤ℤ r.stock) rs × (length rs < 2 ^ 63)
IsCountable (err t) = Unit {0}

above_zero : (a : ℤ) → ltb_ℤ (pos 0) a ≡ leb_ℤ (pos 1) a
above_zero a = ground arith

inventory_item-item_of : (r : Record) → inventory_item r ≡ item_of r
unfolding inventory_item
inventory_item-item_of r = rw (above_zero r.stock) refl

items-item_of : (rs : List Record) → map inventory_item rs ≡ map item_of rs
items-item_of [] = refl
items-item_of (r ∷ rs) = rw (inventory_item-item_of r, items-item_of rs) refl

count-number :
    (f : InventoryItem → Bool) (rs : List Record)
    → count f (map item_of rs) ≡ number (λ r. f (item_of r)) rs
count-number f [] = refl
count-number f (r ∷ rs) = ap (λ n. flag (f (item_of r)) + n) (count-number f rs)

length-items : (rs : List Record) → length (map item_of rs) ≡ length rs
length-items [] = refl
length-items (r ∷ rs) = ap suc (length-items rs)

-- The rest of a program after the answer to its call of `GetAllRecords`.
abbrev replied : Result (List Record) → Prog Outcome → Prog Outcome
replied r (call get_all_records k) = k r
replied r p = p

module _ {W : Type 0} (s : Server W) (view : W → Db) (pf : Platform) (req : ListInventoryRequest)
    (w : W) (o p : ℕ) where
  abbrev pub params : PageParams
  params = pf.defaults (record { page = req.page; per_page = req.per_page })

  module _ (start : pf.offset params ≡ pos o) (size : params.per_page ≡ pos p)
      (fits : o + p < 2 ^ 63) where
    page :
        (rs : List Record)
        → IsCountable (ok rs)
        → page_of (tally_records no_tally rs).items (pf.offset params) params.per_page
          ≡ some (take p (drop o (map item_of rs)))
    page rs few =
        rw (tally_records-Counts rs few.0 few.1, items-item_of rs, start, size)
          (page_of-take-drop (map item_of rs) o p fits)

    replied-Lists :
        (a : Result (List Record) × W)
        → Spec get_all_records (view w) a.0 (view a.1)
        → IsCountable a.0
        → let done = run s (replied a.0 (list_inventory pf (ok req))) a.1 in
          Lists o p params a.0 (view w) (outcome done.0) × (view done.1 ≡ view w)
    unfolding list_inventory
    replied-Lists (err t, v) same few = (refl, same)
    replied-Lists (ok rs, v) own few = rw (page rs few) (
      (
        own.0,
        rw
            (
              tally_records-Counts rs few.0 few.1,
              items-item_of rs,
              count-number is_low rs,
              count-number is_out rs,
              length-items rs,
            )
            refl,
      ),
      own.1,
    )

    -- What `ListInventory` makes of the answer of any store that keeps to its interface: the page of
    -- the items `o` to `o + p` of the records of the answer, in their order, with the number of them
    -- all as the total, and with the numbers of those of which one to five are left and of those that
    -- are sold out; an error of the store is passed on. The records are stored and not archived, and
    -- nothing is changed; there is no panic. `o` and `p` are the offset and the page size that the
    -- pagination gives, and their sum is an `int`; no stock is below zero, and there are fewer than
    -- 2^63 records.
    pub list_inventory-Lists :
        Spec get_all_records (view w) (s get_all_records w).0 (view (s get_all_records w).1)
        → IsCountable (s get_all_records w).0
        → let done = run s (list_inventory pf (ok req)) w in
          Lists o p params (s get_all_records w).0 (view w) (outcome done.0)
          × (view done.1 ≡ view w)
    unfolding list_inventory
    list_inventory-Lists = replied-Lists (s get_all_records w)
