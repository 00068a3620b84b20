-- ===== src/Mongo/Connect.antt =====
-- `NewMongoStore`, `createIndexes`, `Ping` and `Close` (store/mongo.go). The driver's client is a parameter; `W` is
-- the state of the database server.
use zerohttp_example.Base.{String, concat, Bool, true, false, List, [], ◌∷◌, Result, ok, err}
use zerohttp_example.Base.Int.{ℤ, pos, negsuc}

-- `mongo.IndexModel`: the keys with their directions, and the option for a unique index.
pub record IndexModel : Type 0 where
  pub keys : List (String × ℤ)
  pub unique : Bool

-- `mongo.Connect`, `client.Ping`, `client.Disconnect`, and `Indexes().CreateMany` on a collection of a
-- database.
pub record Client (W : Type 0) : Type 0 where
  pub connect : String → W → Result (Unit {0}) × W
  pub ping : W → Result (Unit {0}) × W
  pub disconnect : W → Result (Unit {0}) × W
  pub create_many : String → String → List IndexModel → W → Result (Unit {0}) × W

-- The collections of a store, by name.
pub record Handles : Type 0 where
  pub db : String
  pub users : String
  pub records : String
  pub orders : String

abbrev pub index : String → ℤ → IndexModel
index key direction = record { keys = (key, direction) ∷ []; unique = false }

abbrev pub unique_index : String → IndexModel
unique_index key = record { keys = (key, pos 1) ∷ []; unique = true }

abbrev pub user_indexes : List IndexModel
user_indexes = unique_index "id" ∷ unique_index "email" ∷ []

abbrev pub record_indexes : List IndexModel
record_indexes =
    unique_index "id"
    ∷ index "genre" (pos 1)
    ∷ index "year" (pos 1)
    ∷ index "format" (pos 1)
    ∷ index "artist" (pos 1)
    ∷ index "price" (pos 1)
    ∷ index "archived" (pos 1)
    ∷ index "created_at" (negsuc 0)
    ∷ []

abbrev pub order_indexes : List IndexModel
order_indexes =
    unique_index "id"
    ∷ index "user_id" (pos 1)
    ∷ index "status" (pos 1)
    ∷ index "created_at" (negsuc 0)
    ∷ []

-- The next call, if the last one has not failed.
abbrev pub and_then :
    {A W : Type 0} → String → Result (Unit {0}) × W → (W → Result A × W) → Result A × W
and_then what (err e, w) k = (err (concat what e), w)
and_then what (ok _, w) k = k w

module _ {W : Type 0} (c : Client W) where
  unfoldable pub create_indexes : Handles → W → Result (Unit {0}) × W
  create_indexes h w =
      and_then "failed to create user indexes: " (c.create_many h.db h.users user_indexes w) λ w.
        and_then "failed to create record indexes: " (c.create_many h.db h.records record_indexes w)
          λ w.
            and_then "failed to create order indexes: "
              (c.create_many h.db h.orders order_indexes w) λ w. (ok tt, w)

  unfoldable pub ping : W → Result (Unit {0}) × W
  ping w = c.ping w

  unfoldable pub close : W → Result (Unit {0}) × W
  close w = c.disconnect w

  unfoldable pub new_mongo_store : String → String → W → Result Handles × W
  unfolding create_indexes
  new_mongo_store uri db_name w = and_then "failed to connect to MongoDB: " (c.connect uri w) λ w.
      and_then "failed to ping MongoDB: " (c.ping w) λ w.
        let store : Handles = record {
          db = db_name;
          users = "users";
          records = "records";
          orders = "orders";
        } in
        and_then "failed to create indexes: " (create_indexes store w) λ w. (ok store, w)
