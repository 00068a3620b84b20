-- ===== src/Mongo/Refines.antt =====
-- `MongoStore` keeps what the storage interface promises (store/mongo.go, store/store.go).
use zerohttp_example.Base.{
  ◌-◌, ◌^◌, Bool, false, ◌≡◌, refl, ap, Option, none, some, some-injective, [], ◌∷◌,
}
use zerohttp_example.Base.Int.{pos, ◌≤ℤ◌}
use zerohttp_example.Models.{Record, Order, Float64, Time}
use zerohttp_example.Models.Platform.{Platform}
use zerohttp_example.Store.{Call, Reply, RecordFilter, OrderFilter}
use zerohttp_example.Store
use zerohttp_example.Store.Spec.{Db, Spec, with_user, with_record, with_order, HasEmail}
use zerohttp_example.Store.Keyed.{IsWellKeyed}
use zerohttp_example.Mongo.Queries.{Query, is_string, is_bool, record_query, order_query}
use zerohttp_example.Mongo.Driver.{
  user_fields, record_fields, order_fields, Matches, Behaves, Updates,
}
use zerohttp_example.Mongo.{
  Update, MongoStore, get_user, save_user, get_user_by_email, get_all_users, get_record,
  save_record, get_all_records, get_filtered_records, decrement_stock, get_order, save_order,
  get_orders_by_user, get_all_orders,
}
use zerohttp_example.Mongo.Lookups.{
  find_by-Reads, find-Reads, list_by-Reads, get-Reads, save-Writes, succeeded-Decrements,
}

-- What the methods of the storage interface do, for each call; the other calls go elsewhere.
abbrev pub answer :
    {W : Type 0} → MongoStore W → Platform → Time → (c : Call) → W → Option (Reply c × W)
answer s pf t (Store.get_user id) w = some (get_user s id w)
answer s pf t (Store.save_user u) w = some (save_user s u w)
answer s pf t (Store.get_user_by_email email) w = some (get_user_by_email s email w)
answer s pf t (Store.get_all_users f) w = some (get_all_users s pf f w)
answer s pf t (Store.get_record id) w = some (get_record s id w)
answer s pf t (Store.save_record r) w = some (save_record s r w)
answer s pf t Store.get_all_records w = some (get_all_records s w)
answer s pf t (Store.get_filtered_records f) w = some (get_filtered_records s pf f w)
answer s pf t (Store.decrement_stock id q) w = some (decrement_stock s id q t w)
answer s pf t (Store.get_order id) w = some (get_order s id w)
answer s pf t (Store.save_order o) w = some (save_order s o w)
answer s pf t (Store.get_orders_by_user f) w = some (get_orders_by_user s pf f w)
answer s pf t (Store.get_all_orders f) w = some (get_all_orders s pf f w)
answer s pf t c w = none

-- The answer is one that the interface allows.
abbrev pub Keeps : {W : Type 0} → (W → Db) → (c : Call) → W → Option (Reply c × W) → Type 0
Keeps view c w none = Unit {0}
Keeps view c w (some (r, v)) = Spec c (view w) r (view v)

-- A quantity that is taken off a stock is an `int` and not below zero.
abbrev pub HasCount : Call → Type 0
HasCount (Store.decrement_stock id q) = (pos 0 ≤ℤ q) × (q ≤ℤ pos (2 ^ 63 - 1))
HasCount c = Unit {0}

filtered-Matches :
    (pf : Platform) (f : RecordFilter) (r : Record)
    → Matches record_fields pf.float_gt (record_query pf f) r
    → r.archived ≡ false
unfolding record_query
filtered-Matches pf f r m = some-injective r.archived false m.0

owned-Matches :
    (gt : Float64 → Float64 → Bool) (f : OrderFilter) (o : Order)
    → Matches order_fields gt (order_query f) o
    → o.user_id ≡ f.user_id
unfolding order_query
owned-Matches gt f o m = some-injective o.user_id f.user_id m.0

module _ {W : Type 0} (s : MongoStore W) (pf : Platform) (view : W → Db)
    (users : Behaves user_fields pf.float_gt s.users view (λ d. d.users) with_user (λ u. u.id))
    (records : Behaves record_fields pf.float_gt s.records view
      (λ d. d.records)
      with_record
      (λ r. r.id))
    (orders : Behaves order_fields pf.float_gt s.orders view (λ d. d.orders) with_order (λ o. o.id))
    (updates : (q : Query) (u : Update) (w : W)
      → Updates pf.float_gt
          (view w)
          q
          u
          (s.records.find_one_and_update q u w).0
          (view (s.records.find_one_and_update q u w).1)) where
  -- Every method of `MongoStore` does what the storage interface promises, on the database that the
  -- collections show, if that has each document under its own id and a quantity to be taken is an
  -- `int` not below zero; where the driver behaves as documented.
  pub answer-Keeps :
      (c : Call) (t : Time) (w : W)
      → IsWellKeyed (view w)
      → HasCount c
      → Keeps view c w (answer s pf t c w)
  unfolding get_user save_user get_user_by_email get_all_users get_record save_record
      get_all_records get_filtered_records decrement_stock get_order save_order get_orders_by_user
      get_all_orders
  answer-Keeps (Store.get_user id) t w k h =
      get-Reads _ _ s.users view _ _ _ users (λ u. refl) id w k.users
  answer-Keeps (Store.save_user u) t w k h =
      save-Writes _ _ s.users view _ _ _ users (λ u. refl) u w
  answer-Keeps (Store.get_user_by_email email) t w k h =
      find_by-Reads _ _ s.users view _ _ _ users (is_string "email" email ∷ []) w
        (HasEmail (view w) email) (λ missing j u stored same. missing j u stored (ap some same, tt))
        (λ u stored m. (stored, some-injective u.email email m.0))
  answer-Keeps (Store.get_all_users f) t w k h =
      list_by-Reads _ _ s.users view _ _ _ users _ _ _ w (λ u stored m. stored)
  answer-Keeps (Store.get_record id) t w k h =
      get-Reads _ _ s.records view _ _ _ records (λ u. refl) id w k.records
  answer-Keeps (Store.save_record r) t w k h =
      save-Writes _ _ s.records view _ _ _ records (λ u. refl) r w
  answer-Keeps Store.get_all_records t w k h =
      find-Reads _ _ s.records view _ _ _ records _ _ (view w) _ (view w) (view w).records
        (is_bool "archived" false ∷ [])
        (λ r stored m. (stored, some-injective r.archived false m.0)) refl
        (records.finds (is_bool "archived" false ∷ []) none w)
  answer-Keeps (Store.get_filtered_records f) t w k h =
      list_by-Reads _ _ s.records view _ _ _ records _ _ _ w
        (λ r stored m. (stored, filtered-Matches pf f r m))
  answer-Keeps (Store.decrement_stock id q) t w k h =
      succeeded-Decrements pf.float_gt (view w) id q t h.0 h.1 k _ _ (updates _ _ w)
  answer-Keeps (Store.get_order id) t w k h =
      get-Reads _ _ s.orders view _ _ _ orders (λ u. refl) id w k.orders
  answer-Keeps (Store.save_order o) t w k h =
      save-Writes _ _ s.orders view _ _ _ orders (λ u. refl) o w
  answer-Keeps (Store.get_orders_by_user f) t w k h =
      list_by-Reads _ _ s.orders view _ _ _ orders _ _ _ w
        (λ o stored m. (stored, owned-Matches pf.float_gt f o m))
  answer-Keeps (Store.get_all_orders f) t w k h =
      list_by-Reads _ _ s.orders view _ _ _ orders _ _ _ w (λ o stored m. stored)
  answer-Keeps c t w k h = tt
