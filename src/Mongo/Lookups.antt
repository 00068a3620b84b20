-- ===== src/Mongo/Lookups.antt =====
-- What the building blocks of `MongoStore` do, if the driver behaves as documented
-- (store/mongo.go).
use zerohttp_example.Base.{
  ◌-◌, ◌^◌, String, Bool, ◌≡◌, refl, sym, subst, ap, ◌∙◌, inl, inr, Option, none, some,
  Option-cases, some-injective, List, [], ◌∷◌, Result, ok, err, All,
}
use zerohttp_example.Base.Int.{ℤ, pos, ◌+ℤ◌, ◌-ℤ◌, ◌≤ℤ◌, wrap64, wrap64-eq, eq_of_parts, int_laws}
use zerohttp_example.Models.{Record, Float64, Time}
use zerohttp_example.Store.Spec.{
  Table, put, with_taken, Db, Reads, Writes, Takes, Decrements, taken,
}
use zerohttp_example.Store.Keyed.{StandsUnder, IsWellKeyed}
use zerohttp_example.Mongo.Queries.{Query, FindOptions, is_string, at_least}
use zerohttp_example.Mongo.Driver.{Fields, Matches, Finds, Behaves, Updates, UpdatesOne, updated}
use zerohttp_example.Mongo.{
  Update, Single, decoded, no_documents, failed, Collection, by_id, lookup, succeeded, with_total,
  find_by, find_counted, list_by,
}

module _ {W A : Type 0} (fs : Fields A) (gt : Float64 → Float64 → Bool) (c : Collection W A)
    (view : W → Db) (tbl : Db → Table A) (insert : Db → A → Db) (id_of : A → String)
    (b : Behaves fs gt c view tbl insert id_of) where
  lookup-Reads :
      (answer : Single A) (P : Option A → Type 0) (q : Query) (t : Table A) {d e : Db}
      → Finds fs gt t id_of q answer
      → (((k : String) (a : A) → t k ≡ some a → ¬ Matches fs gt q a) → P none)
      → ((a : A) → t (id_of a) ≡ some a → Matches fs gt q a → P (some a))
      → e ≡ d
      → Reads (lookup answer) P d e
  lookup-Reads (decoded a) P q t f missing good same = (good a f.0 f.1, same)
  lookup-Reads no_documents P q t f missing good same = (missing f, same)
  lookup-Reads (failed x) P q t f missing good same = same

  pub find_by-Reads :
      (q : Query) (w : W) (P : Option A → Type 0)
      → (((k : String) (a : A) → tbl (view w) k ≡ some a → ¬ Matches fs gt q a) → P none)
      → ((a : A) → tbl (view w) (id_of a) ≡ some a → Matches fs gt q a → P (some a))
      → Reads (find_by c q w).0 P (view w) (view (find_by c q w).1)
  find_by-Reads q w P missing good =
      let f = b.finds_one q w in
      lookup-Reads (c.find_one q w).0 P q (tbl (view w)) f.0 missing good f.1

  pub find-Reads :
      (K : A → Type 0) (r : Result (List A)) (d e d' : Db) (t : Table A) (q : Query)
      → ((a : A) → t (id_of a) ≡ some a → Matches fs gt q a → K a)
      → d ≡ d'
      → Reads r (All (λ a. (t (id_of a) ≡ some a) × Matches fs gt q a)) d e
      → Reads r (All K) d' e
  find-Reads K (err x) d e d' t q good same h = h ∙ same
  find-Reads K (ok []) d e d' t q good same h = (tt, h.1 ∙ same)
  find-Reads K (ok (a ∷ rest)) d e d' t q good same h =
      let others = find-Reads K (ok rest) d e d' t q good same (h.0.1, h.1) in
      ((good a h.0.0.0 h.0.0.1, others.0), h.1 ∙ same)

  with_total-Reads :
      (K : A → Type 0) (n : ℤ) (r : Result (List A)) (d e : Db)
      → Reads r (All K) d e
      → Reads (with_total n r) (λ p. All K p.0) d e
  with_total-Reads K n (ok xs) d e h = h
  with_total-Reads K n (err x) d e h = h

  find_counted-Reads :
      (K : A → Type 0) (q : Query) (o : Option FindOptions) (n : Result ℤ) (w : W) (d : Db)
      → ((a : A) → tbl (view w) (id_of a) ≡ some a → Matches fs gt q a → K a)
      → view w ≡ d
      → Reads (find_counted c q o n w).0 (λ p. All K p.0) d (view (find_counted c q o n w).1)
  find_counted-Reads K q o (err x) w d good same = same
  find_counted-Reads K q o (ok n) w d good same =
      let after = view (c.find q o w).1 in
      with_total-Reads K n (c.find q o w).0 d after
        (find-Reads K (c.find q o w).0 (view w) after d (tbl (view w)) q good same (b.finds q o w))

  pub list_by-Reads :
      (K : A → Type 0) (q : Query) (o : Option FindOptions) (w : W)
      → ((a : A) → tbl (view w) (id_of a) ≡ some a → Matches fs gt q a → K a)
      → Reads (list_by c q o w).0 (λ p. All K p.0) (view w) (view (list_by c q o w).1)
  list_by-Reads K q o w good =
      find_counted-Reads K q o (c.count_documents q w).0 (c.count_documents q w).1 (view w)
        (λ a h m. good a (subst (λ d. tbl d (id_of a) ≡ some a) (b.counts q w) h) m) (b.counts q w)

  module _ (tag : (a : A) → fs.strings a "id" ≡ some (id_of a)) where
    named : (a : A) (id : String) → Matches fs gt (by_id id) a → id_of a ≡ id
    named a id m = some-injective (id_of a) id (sym (tag a) ∙ m.0)

    pub get-Reads :
        (id : String) (w : W)
        → StandsUnder id_of (tbl (view w))
        → Reads
            (find_by c (by_id id) w).0
            (λ o. o ≡ tbl (view w) id)
            (view w)
            (view (find_by c (by_id id) w).1)
    get-Reads id w k =
        find_by-Reads (by_id id) w _
          (λ missing. elim (Option-cases (tbl (view w) id)) [
            | inl e ↦ sym e
            | inr (a, e) ↦ absurd (missing id a e (tag a ∙ ap some (k id a e), tt))
          ])
          (λ a h m. sym (subst (λ j. tbl (view w) j ≡ some a) (named a id m) h))

    pub save-Writes :
        (a : A) (w : W)
        → Writes
            (c.replace_one (by_id (id_of a)) a w).0
            (view w)
            (insert (view w) a)
            (view (c.replace_one (by_id (id_of a)) a w).1)
    save-Writes a w = b.replaces (by_id (id_of a)) a w (λ x m. named x (id_of a) m)

-- `Update` with the negative of the quantity takes the quantity off the stock.
taken-updated :
    (r : Record) (q : ℤ) (t : Time)
    → pos 0 ≤ℤ q
    → q ≤ℤ pos (2 ^ 63 - 1)
    → updated r (record { inc_stock = wrap64 (pos 0 -ℤ q); set_updated_at = t }) ≡ taken r q t
taken-updated r q t h k =
    let whole : wrap64 (pos 0 -ℤ q) ≡ pos 0 -ℤ q =
      wrap64-eq (pos 0 -ℤ q) (omega int_laws) (omega int_laws) in
    let stock : r.stock +ℤ wrap64 (pos 0 -ℤ q) ≡ r.stock -ℤ q =
      rw whole (eq_of_parts _ _ (omega int_laws)) in
    ap (λ z. record (taken r q t) { stock = z }) stock

module _ (gt : Float64 → Float64 → Bool) (d : Db) (id : String) (q : ℤ) (t : Time)
    (low : pos 0 ≤ℤ q) (high : q ≤ℤ pos (2 ^ 63 - 1)) (k : IsWellKeyed d) where
  abbrev stock_query : Query
  stock_query = is_string "id" id ∷ at_least "stock" q ∷ []

  abbrev stock_update : Update
  stock_update = record { inc_stock = wrap64 (pos 0 -ℤ q); set_updated_at = t }

  takes : (e : Db) → UpdatesOne gt d stock_query stock_update e → Takes d id q e
  takes e (r, h, (same, ((m, has, enough), _)), next) =
      let is : r.id ≡ id = some-injective r.id id same in
      let stock : r.stock ≡ m = some-injective r.stock m has in
      (
        r,
        t,
        subst (λ j. d.records j ≡ some r) is h,
        subst (λ z. q ≤ℤ z) (sym stock) enough,
        next
            ∙ ap (λ x. record d { records = put d.records r.id x }) (taken-updated r q t low high)
            ∙ ap (λ j. with_taken d j r q t) is,
      )

  pub succeeded-Decrements :
      (answer : Single Record) (e : Db)
      → Updates gt d stock_query stock_update answer e
      → Decrements (succeeded answer) d id q e
  succeeded-Decrements (decoded r) e h = takes e h
  succeeded-Decrements no_documents e (none_match, same) = (
    (λ r h enough. none_match id r h (ap some (k.records id r h), ((r.stock, refl, enough), tt))),
    same,
  )
  succeeded-Decrements (failed x) e (inl same) = inl same
  succeeded-Decrements (failed x) e (inr h) = inr (takes e h)
