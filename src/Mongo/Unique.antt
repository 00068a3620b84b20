-- ===== src/Mongo/Unique.antt =====
-- The indexes that a store has (`createIndexes` in store/mongo.go).
use zerohttp_example.Base.{String, ◌≡◌, refl, subst, List, [], ◌∷◌, All, Result, ok, err}
use zerohttp_example.Mongo.Connect.{
  IndexModel, Client, Handles, unique_index, user_indexes, record_indexes, order_indexes, and_then,
  create_indexes, new_mongo_store,
}

-- The documented behaviour of `CreateMany`: `Has w db coll i` says that the index is there. A call
-- that succeeds has made all of them, and removes none.
pub record MakesIndexes {W : Type 0} (c : Client W) : Type 1 where
  pub Has : W → String → String → IndexModel → Type 0
  pub made :
      (db coll : String) (is : List IndexModel) (w : W)
      → (c.create_many db coll is w).0 ≡ ok tt
      → All (Has (c.create_many db coll is w).1 db coll) is
  pub kept :
      (db coll : String) (is : List IndexModel) (w : W) (other name : String) (i : IndexModel)
      → Has w other name i
      → Has (c.create_many db coll is w).1 other name i

module _ {W : Type 0} (c : Client W) (m : MakesIndexes c) where
  -- `createIndexes` has made the indexes of the three collections.
  abbrev AreMade : Handles → W → Type 0
  AreMade h w =
      All (m.Has w h.db h.users) user_indexes
      × (All (m.Has w h.db h.records) record_indexes × All (m.Has w h.db h.orders) order_indexes)

  Holds-later :
      (db coll : String) (is : List IndexModel) (w : W) (other name : String) (js : List IndexModel)
      → All (m.Has w other name) js
      → All (m.Has (c.create_many db coll is w).1 other name) js
  Holds-later db coll is w other name [] h = tt
  Holds-later db coll is w other name (j ∷ js) h =
      (m.kept db coll is w other name j h.0, Holds-later db coll is w other name js h.1)

  -- If the calls have succeeded, their value and the state after them satisfy `P`.
  abbrev Given : {A : Type 0} → (A → W → Type 0) → Result A × W → Type 0
  Given {A = A} P x = (a : A) → x.0 ≡ ok a → P a x.1

  and_then-Given :
      {A : Type 0} (P : A → W → Type 0) (what : String) (r : Result (Unit {0}) × W)
      (k : W → Result A × W)
      → (r.0 ≡ ok tt → Given P (k r.1))
      → Given P (and_then what r k)
  and_then-Given P what (err e, w) k h a same = absurd (cc same)
  and_then-Given P what (ok tt, w) k h a same = h refl a same

  create_indexes-AreMade : (h : Handles) (w : W) → Given (λ _ v. AreMade h v) (create_indexes c h w)
  unfolding create_indexes
  create_indexes-AreMade h w =
      and_then-Given (λ _ v. AreMade h v) _ (c.create_many h.db h.users user_indexes w) _
        λ a.
          let first = c.create_many h.db h.users user_indexes w in
          let x = m.made h.db h.users user_indexes w a in
          and_then-Given (λ _ v. AreMade h v) _
            (c.create_many h.db h.records record_indexes first.1) _
            λ b.
              let second = c.create_many h.db h.records record_indexes first.1 in
              let y = m.made h.db h.records record_indexes first.1 b in
              let x =
                Holds-later h.db h.records record_indexes first.1 h.db h.users user_indexes x in
              and_then-Given (λ _ v. AreMade h v) _
                (c.create_many h.db h.orders order_indexes second.1) _
                λ d. λ u same. (
                  Holds-later h.db h.orders order_indexes second.1 h.db h.users user_indexes x,
                  (
                    Holds-later h.db h.orders order_indexes second.1 h.db h.records record_indexes
                        y,
                    m.made h.db h.orders order_indexes second.1 d,
                  ),
                )

  -- The server keeps ids unique in the three collections of the store, and the emails of its users.
  abbrev pub IsUnique : String → Handles → W → Type 0
  IsUnique db_name h v =
      (h.db ≡ db_name)
      × m.Has v db_name h.users (unique_index "id")
      × m.Has v db_name h.users (unique_index "email")
      × m.Has v db_name h.records (unique_index "id")
      × m.Has v db_name h.orders (unique_index "id")

  -- A store that `NewMongoStore` has opened is on the named database, and there the ids of users,
  -- records and orders and the emails of users have unique indexes, whatever indexes there were
  -- before; `CreateMany` makes the indexes that it is given, and drops none.
  pub new_mongo_store-IsUnique :
      (uri db_name : String) (w : W) (h : Handles)
      → (new_mongo_store c uri db_name w).0 ≡ ok h
      → IsUnique db_name h (new_mongo_store c uri db_name w).1
  unfolding new_mongo_store
  new_mongo_store-IsUnique uri db_name w h =
      and_then-Given (IsUnique db_name) _ (c.connect uri w) _
        (λ _. and_then-Given (IsUnique db_name) _ (c.ping _) _ λ _.
          let store : Handles = record {
            db = db_name;
            users = "users";
            records = "records";
            orders = "orders";
          } in
          let last = create_indexes c store (c.ping (c.connect uri w).1).1 in
          and_then-Given (IsUnique db_name) _ last _ λ made a same.
            let (users, (records, orders)) = create_indexes-AreMade store _ tt made in
            let is : store ≡ a = cc same in
            subst (λ b. IsUnique db_name b last.1) is
              (refl, users.0, users.1.0, records.0, orders.0))
        h
