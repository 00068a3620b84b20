-- ===== src/Mongo/Queries.antt =====
-- The queries that `MongoStore` sends (store/mongo.go).
use zerohttp_example.Base.{String, Bool, true, false, ◌==◌, if◌then◌else◌, List, [], ◌∷◌, ◌++◌}
use zerohttp_example.Base.Int.{ℤ, pos, eq_ℤ, add_int}
use zerohttp_example.Models.{Float64}
use zerohttp_example.Models.Platform.{Platform}
use zerohttp_example.Store.{RecordFilter, OrderFilter}

-- One condition of a `bson.M`: a field has a value, or `$in`, `$gte`, `$lt`, `$gt` and `$lte`.
pub data Cond : Type 0 where
  is_string : String → String → Cond
  is_bool : String → Bool → Cond
  one_of : String → List String → Cond
  at_least : String → ℤ → Cond
  below : String → ℤ → Cond
  above : String → ℤ → Cond
  costs_at_least : String → Float64 → Cond
  costs_at_most : String → Float64 → Cond

-- All conditions of a `bson.M`.
abbrev pub Query : Type 0
Query = List Cond

pub record SortKey : Type 0 where
  pub key : String
  pub descending : Bool

pub record FindOptions : Type 0 where
  pub sort : List SortKey
  pub limit : ℤ
  pub skip : ℤ

abbrev pub newest_first : List SortKey
newest_first = record { key = "created_at"; descending = true } ∷ []

-- `len(xs) > 0`.
abbrev pub is_nonempty : List String → Bool
is_nonempty [] = false
is_nonempty (x ∷ xs) = true

unfoldable pub record_query : Platform → RecordFilter → Query
record_query pf f =
    (is_bool "archived" false ∷ [])
    ++ (if is_nonempty f.genres then one_of "genre" f.genres ∷ [] else [])
    ++ (if eq_ℤ f.decade (pos 0)
        then []
        else at_least "year" f.decade ∷ below "year" (add_int f.decade (pos 10)) ∷ [])
    ++ (if is_nonempty f.formats then one_of "format" f.formats ∷ [] else [])
    ++ (if is_nonempty f.conditions then one_of "condition" f.conditions ∷ [] else [])
    ++ (if f.artist == "" then [] else is_string "artist" f.artist ∷ [])
    ++ (if pf.float_gt f.min_price pf.float_zero
        then costs_at_least "price" f.min_price ∷ []
        else [])
    ++ (if pf.float_gt f.max_price pf.float_zero
        then costs_at_most "price" f.max_price ∷ []
        else [])
    ++ (if f.in_stock then above "stock" (pos 0) ∷ [] else [])

unfoldable pub record_sort : String → List SortKey
record_sort s =
    if s == "price_asc"
    then record { key = "price"; descending = false } ∷ []
    else if s == "price_desc"
    then record { key = "price"; descending = true } ∷ []
    else if s == "year_asc"
    then record { key = "year"; descending = false } ∷ []
    else if s == "year_desc"
    then record { key = "year"; descending = true } ∷ []
    else if s == "created_desc"
    then record { key = "created_at"; descending = true } ∷ []
    else []

unfoldable pub order_query : OrderFilter → Query
order_query f =
    (is_string "user_id" f.user_id ∷ [])
    ++ (if f.status == "" then [] else is_string "status" f.status ∷ [])
