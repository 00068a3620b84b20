-- ===== src/Handlers/Inventory/Counts.antt =====
-- The counters of `ListInventory` against the flags of its items (handlers/inventory.go).
use zerohttp_example.Base.{
  ℕ, ◌+◌, ◌<◌, ◌≤◌, ◌^◌, ◌≡◌, refl, sym, ◌∙◌, Bool, true, false, if◌then◌else◌, List, [], ◌∷◌, ◌++◌,
  map, length, All, arith,
}
use zerohttp_example.Base.Int.{pos, ◌≤ℤ◌, add_int-pos}
use zerohttp_example.Models.{Record}
use zerohttp_example.Api.{InventoryItem}
use zerohttp_example.Handlers.Inventory.{
  Tally, inventory_item, count_record, tally_record, tally_records, no_tally,
}
use mathlib.Core.List.{append-nil, append_assoc}

abbrev pub flag : Bool → ℕ
flag b = if b then 1 else 0

flag-le : (b : Bool) → flag b ≤ 1
flag-le true = omega arith
flag-le false = omega arith

-- How many items pass the test.
abbrev pub count : (InventoryItem → Bool) → List InventoryItem → ℕ
count f [] = 0
count f (i ∷ is) = flag (f i) + count f is

abbrev pub is_low : InventoryItem → Bool
is_low i = i.low_stock

abbrev pub is_out : InventoryItem → Bool
is_out i = i.reorder_needed

-- One round keeps the counters in step with the flags, if the stock is not below zero.
count_record-flags :
    (r : Record) (a b : ℕ)
    → pos 0 ≤ℤ r.stock
    → a + 1 < 2 ^ 63
    → b + 1 < 2 ^ 63
    → count_record r (pos a) (pos b)
      ≡ (pos (a + flag (is_low (inventory_item r))), pos (b + flag (is_out (inventory_item r))))
unfolding count_record inventory_item
count_record-flags r a b s h k = ground (arith, add_int-pos a 1 h, add_int-pos b 1 k)

tally-eq :
    {is js : List InventoryItem} {a b c d : ℕ}
    → is ≡ js
    → a ≡ c
    → b ≡ d
    → ◌≡◌ {A = Tally}
        (record { items = is; low_stock_count = pos a; out_of_stock_count = pos b })
        (record { items = js; low_stock_count = pos c; out_of_stock_count = pos d })
tally-eq p q r = rw (p, q, r) refl

tally_records-from :
    (rs : List Record) (is : List InventoryItem) (a b : ℕ)
    → All (λ r. pos 0 ≤ℤ r.stock) rs
    → a + length rs < 2 ^ 63
    → b + length rs < 2 ^ 63
    → tally_records (record { items = is; low_stock_count = pos a; out_of_stock_count = pos b }) rs
      ≡ record {
        items = is ++ map inventory_item rs;
        low_stock_count = pos (a + count is_low (map inventory_item rs));
        out_of_stock_count = pos (b + count is_out (map inventory_item rs));
      }
unfolding tally_records tally_record
tally_records-from [] is a b s h k = tally-eq (sym (append-nil is)) (omega arith) (omega arith)
tally_records-from (r ∷ rs) is a b s h k =
    let i = inventory_item r in
    rw (count_record-flags r a b s.0 (omega arith) (omega arith)) (
      tally_records-from rs (is ++ (i ∷ [])) (a + flag (is_low i)) (b + flag (is_out i)) s.1
        (omega (arith, flag-le (is_low i))) (omega (arith, flag-le (is_out i)))
      ∙ tally-eq (append_assoc is (i ∷ []) (map inventory_item rs)) (omega arith) (omega arith))

-- `ListInventory` counts what its flags say: the items are those of the records in order, and the
-- two counters are the numbers of items flagged low and to be reordered, where no stock is below
-- zero and there are fewer than 2^63 records.
pub tally_records-Counts :
    (rs : List Record)
    → All (λ r. pos 0 ≤ℤ r.stock) rs
    → length rs < 2 ^ 63
    → tally_records no_tally rs ≡ record {
      items = map inventory_item rs;
      low_stock_count = pos (count is_low (map inventory_item rs));
      out_of_stock_count = pos (count is_out (map inventory_item rs));
    }
tally_records-Counts rs s h =
    tally_records-from rs [] 0 0 s (omega arith) (omega arith)
    ∙ tally-eq refl (omega arith) (omega arith)
