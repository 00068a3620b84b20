-- ===== src/Mongo/Driver.antt =====
-- What `MongoStore` relies on of the MongoDB driver: the documented behaviour of its calls, as
-- hypotheses on a collection. The fields of a document have the names of the `bson` tags in
-- models/*.go.
use zerohttp_example.Base.{
  String, Bool, false, ◌==◌, if◌then◌else◌, ◌≡◌, ◌⊎◌, Option, none, some, List, [], ◌∷◌, All,
}
use zerohttp_example.Base.Int.{ℤ, ◌+ℤ◌, ◌≤ℤ◌}
use zerohttp_example.Models.{User, Record, Order, Float64, touch}
use zerohttp_example.Store.Spec.{Table, Db, Reads, Writes, with_record}
use zerohttp_example.Mongo.Queries.{
  Cond, Query, FindOptions, is_string, is_bool, one_of, at_least, below, above, costs_at_least,
  costs_at_most,
}
use zerohttp_example.Mongo.{Single, decoded, no_documents, failed, Update, Collection}

-- The fields of a document that the queries name, by type.
pub record Fields (A : Type 0) : Type 0 where
  pub strings : A → String → Option String
  pub bools : A → String → Option Bool
  pub ints : A → String → Option ℤ
  pub floats : A → String → Option Float64

abbrev pub user_fields : Fields User
user_fields = record {
  strings = λ u k. if k == "id" then some u.id else if k == "email" then some u.email else none;
  bools = λ u k. if k == "active" then some u.active else none;
  ints = λ u k. none;
  floats = λ u k. none;
}

abbrev pub record_fields : Fields Record
record_fields = record {
  strings = λ r k.
      if k == "id"
      then some r.id
      else if k == "artist"
      then some r.artist
      else if k == "format"
      then some r.format
      else if k == "genre"
      then some r.genre
      else if k == "condition"
      then some r.condition
      else none;
  bools = λ r k. if k == "archived" then some r.archived else none;
  ints = λ r k. if k == "year" then some r.year else if k == "stock" then some r.stock else none;
  floats = λ r k. if k == "price" then some r.price else none;
}

abbrev pub order_fields : Fields Order
order_fields = record {
  strings = λ o k.
      if k == "id"
      then some o.id
      else if k == "user_id"
      then some o.user_id
      else if k == "status"
      then some o.status
      else none;
  bools = λ o k. none;
  ints = λ o k. none;
  floats = λ o k. none;
}

-- The list has the string.
abbrev pub Has : List String → String → Type 0
Has [] s = ⊥
Has (x ∷ xs) s = (x ≡ s) ⊎ Has xs s

module _ {A : Type 0} (fs : Fields A) (gt : Float64 → Float64 → Bool) where
  abbrev pub Meets : A → Cond → Type 0
  Meets a (is_string k v) = fs.strings a k ≡ some v
  Meets a (is_bool k v) = fs.bools a k ≡ some v
  Meets a (one_of k vs) = (v : String) × (fs.strings a k ≡ some v) × Has vs v
  Meets a (at_least k n) = (m : ℤ) × (fs.ints a k ≡ some m) × (n ≤ℤ m)
  Meets a (below k n) = (m : ℤ) × (fs.ints a k ≡ some m) × (¬ (n ≤ℤ m))
  Meets a (above k n) = (m : ℤ) × (fs.ints a k ≡ some m) × (¬ (m ≤ℤ n))
  Meets a (costs_at_least k p) = (c : Float64) × (fs.floats a k ≡ some c) × (gt p c ≡ false)
  Meets a (costs_at_most k p) = (c : Float64) × (fs.floats a k ≡ some c) × (gt c p ≡ false)

  -- The document matches the query.
  abbrev pub Matches : Query → A → Type 0
  Matches q a = All (Meets a) q

  -- `FindOne`: some matching document, or none if none matches, or an error.
  abbrev pub Finds : Table A → (A → String) → Query → Single A → Type 0
  Finds t id_of q (decoded a) = (t (id_of a) ≡ some a) × Matches q a
  Finds t id_of q no_documents = (k : String) (a : A) → t k ≡ some a → ¬ Matches q a
  Finds t id_of q (failed e) = Unit {0}

  -- A collection whose documents are the table `tbl` of the database `view`. `insert` puts one
  -- document under its id; a replacement with `upsert` is that, if the query matches no document
  -- with another id.
  pub record Behaves {W : Type 0} (c : Collection W A) (view : W → Db) (tbl : Db → Table A)
      (insert : Db → A → Db) (id_of : A → String) : Type 0 where
    pub finds_one :
        (q : Query) (w : W)
        → Finds (tbl (view w)) id_of q (c.find_one q w).0 × (view (c.find_one q w).1 ≡ view w)
    pub finds :
        (q : Query) (o : Option FindOptions) (w : W)
        → Reads
            (c.find q o w).0
            (All (λ a. (tbl (view w) (id_of a) ≡ some a) × Matches q a))
            (view w)
            (view (c.find q o w).1)
    pub counts : (q : Query) (w : W) → view (c.count_documents q w).1 ≡ view w
    pub replaces :
        (q : Query) (a : A) (w : W)
        → ((b : A) → Matches q b → id_of b ≡ id_of a)
        → Writes (c.replace_one q a w).0 (view w) (insert (view w) a) (view (c.replace_one q a w).1)

-- `FindOneAndUpdate` on the records: one matching record is updated in one step.
abbrev pub updated : Record → Update → Record
updated r u = record r { base = touch r.base u.set_updated_at; stock = r.stock +ℤ u.inc_stock }

abbrev pub UpdatesOne : (Float64 → Float64 → Bool) → Db → Query → Update → Db → Type 0
UpdatesOne gt d q u e =
    (r : Record) × (d.records r.id ≡ some r)
    × Matches record_fields gt q r
    × (e ≡ with_record d (updated r u))

abbrev pub Updates : (Float64 → Float64 → Bool) → Db → Query → Update → Single Record → Db → Type 0
Updates gt d q u (decoded r) e = UpdatesOne gt d q u e
Updates gt d q u no_documents e =
    ((k : String) (r : Record) → d.records k ≡ some r → ¬ Matches record_fields gt q r) × (e ≡ d)
Updates gt d q u (failed t) e = (e ≡ d) ⊎ UpdatesOne gt d q u e
