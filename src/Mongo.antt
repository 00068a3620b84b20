-- ===== src/Mongo.antt =====
-- `MongoStore` (store/mongo.go): the methods of the storage interface over the collections of the
-- MongoDB driver, which are a parameter. `W` is the state of the database server.
pub mod Queries
pub mod Driver
pub mod Lookups
pub mod Refines
pub mod Seed
pub mod Serve
pub mod Connect
pub mod Unique
pub mod Filter
use zerohttp_example.Base.{
  ℕ, String, Bool, true, false, Option, none, some, List, [], ◌∷◌, Result, ok, err,
}
use zerohttp_example.Base.Int.{ℤ, pos, ◌-ℤ◌, wrap64}
use zerohttp_example.Models.{User, Record, Order, Float64, Time}
use zerohttp_example.Models.Platform.{Platform}
use zerohttp_example.Store.{BaseFilter, RecordFilter, OrderFilter, UserFilter, AllOrdersFilter}
use zerohttp_example.Mongo.Queries.{
  Query, is_string, is_bool, at_least, SortKey, FindOptions, record_query, record_sort, order_query,
  newest_first,
}

-- `FindOne(…).Decode(…)`: a document, `mongo.ErrNoDocuments`, or another error.
pub data Single (A : Type 0) : Type 0 where
  decoded : A → Single A
  no_documents : Single A
  failed : String → Single A

-- `$inc` of the stock and `$set` of `updated_at`.
pub record Update : Type 0 where
  pub inc_stock : ℤ
  pub set_updated_at : Time

-- A collection of the driver. `replace_one` has the option `upsert`; `find` stands for `Find`,
-- `cursor.All` and `cursor.Close`, and fails with the error of the first that fails.
pub record Collection (W A : Type 0) : Type 0 where
  pub find_one : Query → W → Single A × W
  pub replace_one : Query → A → W → Result (Unit {0}) × W
  pub count_documents : Query → W → Result ℤ × W
  pub find : Query → Option FindOptions → W → Result (List A) × W
  pub find_one_and_update : Query → Update → W → Single A × W

pub record MongoStore (W : Type 0) : Type 0 where
  pub users : Collection W User
  pub records : Collection W Record
  pub orders : Collection W Order

abbrev pub by_id : String → Query
by_id id = is_string "id" id ∷ []

-- What the methods that look one document up make of the driver's answer.
abbrev pub lookup : {A : Type 0} → Single A → Result (Option A)
lookup (decoded a) = ok (some a)
lookup no_documents = ok none
lookup (failed e) = err e

abbrev pub succeeded : Single Record → Result Bool
succeeded (decoded r) = ok true
succeeded no_documents = ok false
succeeded (failed e) = err e

abbrev pub with_total : {A : Type 0} → ℤ → Result (List A) → Result (List A × ℤ)
with_total n (ok xs) = ok (xs, n)
with_total n (err e) = err e

module _ {W : Type 0} where
  abbrev pub find_by : {A : Type 0} → Collection W A → Query → W → Result (Option A) × W
  find_by c q w = let answer = c.find_one q w in (lookup answer.0, answer.1)

  abbrev pub find_counted :
      {A : Type 0}
      → Collection W A
      → Query
      → Option FindOptions
      → Result ℤ
      → W
      → Result (List A × ℤ) × W
  find_counted c q o (err e) w = (err e, w)
  find_counted c q o (ok n) w = let answer = c.find q o w in (with_total n answer.0, answer.1)

  -- `CountDocuments`, then `Find`.
  abbrev pub list_by :
      {A : Type 0} → Collection W A → Query → Option FindOptions → W → Result (List A × ℤ) × W
  list_by c q o w = let counted = c.count_documents q w in find_counted c q o counted.0 counted.1

  module _ (s : MongoStore W) where
    unfoldable pub get_user : String → W → Result (Option User) × W
    get_user id = find_by s.users (by_id id)

    unfoldable pub save_user : User → W → Result (Unit {0}) × W
    save_user u = s.users.replace_one (by_id u.id) u

    unfoldable pub get_user_by_email : String → W → Result (Option User) × W
    get_user_by_email email = find_by s.users (is_string "email" email ∷ [])

    unfoldable pub get_record : String → W → Result (Option Record) × W
    get_record id = find_by s.records (by_id id)

    unfoldable pub save_record : Record → W → Result (Unit {0}) × W
    save_record r = s.records.replace_one (by_id r.id) r

    -- At the instant that `time.Now()` gives.
    unfoldable pub decrement_stock : String → ℤ → Time → W → Result Bool × W
    decrement_stock id quantity now w =
        let answer =
          s.records.find_one_and_update (is_string "id" id ∷ at_least "stock" quantity ∷ [])
            (record { inc_stock = wrap64 (pos 0 -ℤ quantity); set_updated_at = now }) w in
        (succeeded answer.0, answer.1)

    unfoldable pub get_all_records : W → Result (List Record) × W
    get_all_records = s.records.find (is_bool "archived" false ∷ []) none

    unfoldable pub get_order : String → W → Result (Option Order) × W
    get_order id = find_by s.orders (by_id id)

    unfoldable pub save_order : Order → W → Result (Unit {0}) × W
    save_order o = s.orders.replace_one (by_id o.id) o

    module _ (pf : Platform) where
      -- The page of a list, sorted.
      abbrev pub page_options : BaseFilter → List SortKey → Option FindOptions
      page_options f sort =
          let params = pf.defaults (record { page = f.page; per_page = f.per_page }) in
          let limit_skip = pf.limit_skip params in
          some (record { sort = sort; limit = limit_skip.0; skip = limit_skip.1 })

      unfoldable pub get_all_users : UserFilter → W → Result (List User × ℤ) × W
      get_all_users f = list_by s.users [] (page_options f.base [])

      unfoldable pub get_filtered_records : RecordFilter → W → Result (List Record × ℤ) × W
      get_filtered_records f =
          list_by s.records (record_query pf f) (page_options f.base (record_sort f.sort))

      unfoldable pub get_orders_by_user : OrderFilter → W → Result (List Order × ℤ) × W
      get_orders_by_user f = list_by s.orders (order_query f) (page_options f.base newest_first)

      unfoldable pub get_all_orders : AllOrdersFilter → W → Result (List Order × ℤ) × W
      get_all_orders f = list_by s.orders [] (page_options f.base newest_first)
