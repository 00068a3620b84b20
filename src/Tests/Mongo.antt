-- ===== src/Tests/Mongo.antt =====
-- The theorem on `MongoStore` at a concrete driver: a server that keeps the three tables, replaces
-- documents, takes stock, and has no index for any other query.
use zerohttp_example.Base.{
  String, ◌≡◌, refl, sym, subst, ap, ◌∙◌, inl, inr, Bool-cases, ◌==◌, ◌&&◌, if◌then◌else◌, Option,
  none, some, [], ◌∷◌, ok, err, arith, eq_iff,
}
use zerohttp_example.Base.Int.{ℤ, pos, leb_ℤ}
use zerohttp_example.Models.{Record}
use zerohttp_example.Store
use zerohttp_example.Store.Spec.{Table, Db, with_user, with_record, with_order}
use zerohttp_example.Mongo.{Single, decoded, failed, Update, Collection, MongoStore}
use zerohttp_example.Mongo.Queries.{Query, is_string, at_least}
use zerohttp_example.Mongo.Driver.{
  Fields, Finds, Behaves, user_fields, record_fields, order_fields, updated, Updates,
}
use zerohttp_example.Mongo.Refines.{answer, Keeps, answer-Keeps}
use zerohttp_example.Tests.Fixtures.{platform, shop}
use zerohttp_example.Tests.Stock.{shop-IsWellKeyed}

abbrev take_one : Option Record → String → ℤ → Update → Db → Single Record × Db
take_one none id n u d = (failed "no such key", d)
take_one (some r) id n u d =
    if r.id == id && leb_ℤ n r.stock
    then (decoded (updated r u), with_record d (updated r u))
    else (failed "conflict", d)

abbrev pub update_one : Query → Update → Db → Single Record × Db
update_one (is_string k id ∷ at_least l n ∷ []) u d =
    if k == "id" && l == "stock" then take_one (d.records id) id n u d else (failed "no index", d)
update_one q u d = (failed "no index", d)

abbrev one_by : {A : Type 0} → (A → String) → String → Option A → Single A
one_by id_of id none = failed "no such key"
one_by id_of id (some a) = if id_of a == id then decoded a else failed "misplaced"

abbrev find_one : {A : Type 0} → (Db → Table A) → (A → String) → Query → Db → Single A
find_one tbl id_of (is_string k id ∷ []) d =
    if k == "id" then one_by id_of id (tbl d id) else failed "no index"
find_one tbl id_of q d = failed "no index"

abbrev collection : {A : Type 0} → (Db → Table A) → (Db → A → Db) → (A → String) → Collection Db A
collection tbl insert id_of = record {
  find_one = λ q d. (find_one tbl id_of q d, d);
  replace_one = λ q a d. (ok tt, insert d a);
  count_documents = λ q d. (ok (pos 0), d);
  find = λ q o d. (err "no index", d);
  find_one_and_update = λ q u d. (failed "read only", d);
}

abbrev pub server : MongoStore Db
server = record {
  users = collection (λ d. d.users) with_user (λ u. u.id);
  records = record (collection (λ d. d.records) with_record (λ r. r.id)) {
    find_one_and_update = update_one;
  };
  orders = collection (λ d. d.orders) with_order (λ o. o.id);
}

takes :
    (o : Option Record) (id : String) (n : ℤ) (u : Update) (d : Db)
    → d.records id ≡ o
    → Updates platform.float_gt d
        (is_string "id" id ∷ at_least "stock" n ∷ [])
        u
        (take_one o id n u d).0
        (take_one o id n u d).1
takes none id n u d h = inl refl
takes (some r) id n u d h = elim (Bool-cases (r.id == id && leb_ℤ n r.stock)) [
  | inl e ↦
      let same : r.id ≡ id = ground (arith, eq_iff r.id id) in
      rw e (
        r,
        subst (λ k. d.records k ≡ some r) (sym same) h,
        (ap some same, ((r.stock, refl, ground (arith, eq_iff r.id id)), tt)),
        refl,
      )
  | inr e ↦ rw e (inl refl)
]

pub update_one-Updates :
    (q : Query) (u : Update) (d : Db)
    → Updates platform.float_gt d q u (update_one q u d).0 (update_one q u d).1
update_one-Updates (is_string k id ∷ at_least l n ∷ []) u d =
    elim (Bool-cases (k == "id" && l == "stock")) [
      | inl e ↦
          let key : "id" ≡ k = sym (ground (arith, eq_iff k "id")) in
          let field : "stock" ≡ l = sym (ground (arith, eq_iff l "stock")) in
          rw e (
            subst
              (λ m.
                Updates platform.float_gt d (is_string m id ∷ at_least l n ∷ []) u
                  (take_one (d.records id) id n u d).0 (take_one (d.records id) id n u d).1)
              key
              (subst
                (λ m.
                  Updates platform.float_gt d (is_string "id" id ∷ at_least m n ∷ []) u
                    (take_one (d.records id) id n u d).0 (take_one (d.records id) id n u d).1)
                field (takes (d.records id) id n u d refl)))
      | inr e ↦ rw e (inl refl)
    ]
update_one-Updates q u d = inl refl

module _ {A : Type 0} (fs : Fields A) (tbl : Db → Table A) (insert : Db → A → Db)
    (id_of : A → String) (named : (a : A) → fs.strings a "id" ≡ some (id_of a)) where
  one_by-Finds :
      (o : Option A) (id : String) (d : Db)
      → tbl d id ≡ o
      → Finds fs platform.float_gt (tbl d) id_of (is_string "id" id ∷ []) (one_by id_of id o)
  one_by-Finds none id d h = tt
  one_by-Finds (some a) id d h = elim (Bool-cases (id_of a == id)) [
    | inl e ↦
        let same : id_of a ≡ id = (eq_iff (id_of a) id).0 e in
        rw e (subst (λ k. tbl d k ≡ some a) (sym same) h, (named a ∙ ap some same, tt))
    | inr e ↦ rw e tt
  ]

  find_one-Finds :
      (q : Query) (d : Db) → Finds fs platform.float_gt (tbl d) id_of q (find_one tbl id_of q d)
  find_one-Finds (is_string k id ∷ []) d = elim (Bool-cases (k == "id")) [
    | inl e ↦ rw e (
        subst
          (λ j.
            Finds fs platform.float_gt (tbl d) id_of (is_string j id ∷ [])
              (one_by id_of id (tbl d id)))
          (sym ((eq_iff k "id").0 e)) (one_by-Finds (tbl d id) id d refl))
    | inr e ↦ rw e tt
  ]
  find_one-Finds q d = tt

  collection-Behaves :
      Behaves fs platform.float_gt (collection tbl insert id_of) (λ d. d) tbl insert id_of
  collection-Behaves = record {
    finds_one = λ q w. (find_one-Finds q w, refl);
    finds = λ q o w. refl;
    counts = λ q w. refl;
    replaces = λ q a w h. refl;
  }

pub users-Behaves :
    Behaves user_fields platform.float_gt server.users (λ d. d) (λ d. d.users) with_user (λ u. u.id)
users-Behaves = collection-Behaves user_fields (λ d. d.users) with_user (λ u. u.id) (λ u. refl)

pub orders-Behaves :
    Behaves order_fields platform.float_gt server.orders
      (λ d. d)
      (λ d. d.orders)
      with_order
      (λ o. o.id)
orders-Behaves = collection-Behaves order_fields (λ d. d.orders) with_order (λ o. o.id) (λ o. refl)

pub records-Behaves :
    Behaves record_fields platform.float_gt server.records
      (λ d. d)
      (λ d. d.records)
      with_record
      (λ r. r.id)
records-Behaves = record {
  finds_one = λ q w.
      (find_one-Finds record_fields (λ d. d.records) with_record (λ r. r.id) (λ r. refl) q w, refl);
  finds = λ q o w. refl;
  counts = λ q w. refl;
  replaces = λ q a w h. refl;
}

answer-Keeps_example :
    Keeps
      (λ d. d)
      (Store.decrement_stock "blue" (pos 2))
      shop
      (answer server platform 9 (Store.decrement_stock "blue" (pos 2)) shop)
answer-Keeps_example =
    answer-Keeps server platform (λ d. d) users-Behaves records-Behaves orders-Behaves
      update_one-Updates (Store.decrement_stock "blue" (pos 2)) 9 shop shop-IsWellKeyed
      (omega arith, omega arith)
