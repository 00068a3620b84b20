-- ===== src/Mongo/Filter.antt =====
-- The records that a filter wants (`GetFilteredRecords` in store/mongo.go).
use zerohttp_example.Base.{
  String, ◌≡◌, ap, ◌↔◌, ◌⊎◌, inl, inr, refl, sym, subst, ◌∙◌, Bool, true, false, if◌then◌else◌,
  ◌==◌, some, some-injective, List, [], ◌∷◌, ◌++◌, All, eq_iff,
}
use zerohttp_example.Base.Int.{pos, ◌+ℤ◌, ◌≤ℤ◌, eq_ℤ, eq_ℤ_zero, add_int}
use zerohttp_example.Models.{Record}
use zerohttp_example.Models.Platform.{Platform}
use zerohttp_example.Store.{RecordFilter}
use zerohttp_example.Mongo.Queries.{
  Cond, Query, record_query, is_nonempty, is_string, one_of, at_least, below, above, costs_at_least,
  costs_at_most,
}
use zerohttp_example.Store.Spec.{Db, Reads, with_record}
use zerohttp_example.Mongo.{MongoStore, get_filtered_records}
use zerohttp_example.Mongo.Lookups.{list_by-Reads}
use zerohttp_example.Mongo.Driver.{Behaves, Has, Meets, Matches, record_fields}

-- An empty list of choices wants everything.
abbrev pub Among : List String → String → Type 0
Among xs s = (xs ≡ []) ⊎ Has xs s

-- What the fields of a filter say of a record.
pub record Wants (pf : Platform) (f : RecordFilter) (r : Record) : Type 0 where
  pub listed : r.archived ≡ false
  pub genre : Among f.genres r.genre
  pub decade : (f.decade ≡ pos 0) ⊎ ((f.decade ≤ℤ r.year) × (¬ (f.decade +ℤ pos 10 ≤ℤ r.year)))
  pub format : Among f.formats r.format
  pub condition : Among f.conditions r.condition
  pub artist : (f.artist ≡ "") ⊎ (r.artist ≡ f.artist)
  pub min_price :
      (pf.float_gt f.min_price pf.float_zero ≡ false) ⊎ (pf.float_gt f.min_price r.price ≡ false)
  pub max_price :
      (pf.float_gt f.max_price pf.float_zero ≡ false) ⊎ (pf.float_gt r.price f.max_price ≡ false)
  pub stock : (f.in_stock ≡ false) ⊎ (¬ (r.stock ≤ℤ pos 0))

All-append :
    {A : Type 0} (P : A → Type 0) (xs ys : List A) → All P (xs ++ ys) ↔ (All P xs × All P ys)
All-append P [] ys = (λ h. (tt, h), λ h. h.1)
All-append P (x ∷ xs) ys =
    let rest = All-append P xs ys in
    (λ h. ((h.0, (rest.0 h.1).0), (rest.0 h.1).1), λ h. (h.0.0, rest.1 (h.0.1, h.1)))

-- A field that a document has, under a condition on its value.
field : {A : Type 0} (a : A) (P : A → Type 0) → ((m : A) × (some a ≡ some m) × P m) ↔ P a
field a P = (λ (m, e, h). subst P (sym (some-injective a m e)) h, λ h. (a, refl, h))

module _ (pf : Platform) (r : Record) where
  abbrev Fits : Query → Type 0
  Fits q = Matches record_fields pf.float_gt q r

  if_asked :
      (b : Bool) (c : Cond) (P : Type 0)
      → (Meets record_fields pf.float_gt r c ↔ P)
      → Fits (if b then c ∷ [] else []) ↔ ((b ≡ false) ⊎ P)
  if_asked true c P h = (λ m. inr (h.0 m.0), elim [ inl e ↦ absurd (cc e) | inr p ↦ (h.1 p, tt) ])
  if_asked false c P h = (λ _. inl refl, λ _. tt)

  unless :
      (b : Bool) (q : Query) (A P : Type 0)
      → ((b ≡ true) ↔ A)
      → (Fits q ↔ P)
      → Fits (if b then [] else q) ↔ (A ⊎ P)
  unless true q A P a h = (λ _. inl (a.0 refl), λ _. tt)
  unless false q A P a h = (λ m. inr (h.0 m), elim [ inl x ↦ absurd (cc (a.1 x)) | inr p ↦ h.1 p ])

  among :
      (k : String) (xs : List String) (s : String)
      → record_fields.strings r k ≡ some s
      → Fits (if is_nonempty xs then one_of k xs ∷ [] else []) ↔ Among xs s
  among k [] s h = (λ _. inl refl, λ _. tt)
  among k (x ∷ xs) s h = (
    (λ ((v, is, has), _). inr (subst (Has (x ∷ xs)) (some-injective v s (sym is ∙ h)) has)),
    elim [ inl e ↦ absurd (cc e) | inr has ↦ ((s, h, has), tt) ],
  )

  also : (xs ys : Query) {P Q : Type 0} → (Fits xs ↔ P) → (Fits ys ↔ Q) → Fits (xs ++ ys) ↔ (P × Q)
  also xs ys h k =
      let both = All-append (Meets record_fields pf.float_gt r) xs ys in
      (λ m. let n = both.0 m in (h.0 n.0, k.0 n.1), λ p. both.1 (h.1 p.0, k.1 p.1))

  module _ (f : RecordFilter) (fits : add_int f.decade (pos 10) ≡ f.decade +ℤ pos 10) where
    in_decade :
        Fits (at_least "year" f.decade ∷ below "year" (add_int f.decade (pos 10)) ∷ [])
        ↔ ((f.decade ≤ℤ r.year) × (¬ (f.decade +ℤ pos 10 ≤ℤ r.year)))
    in_decade = rw fits (
      λ h. (
        (field r.year (λ m. f.decade ≤ℤ m)).0 h.0,
        (field r.year (λ m. ¬ (f.decade +ℤ pos 10 ≤ℤ m))).0 h.1.0,
      ),
      λ h. ((r.year, refl, h.0), ((r.year, refl, h.1), tt)),
    )

    abbrev Decade : Type 0
    Decade = (f.decade ≡ pos 0) ⊎ ((f.decade ≤ℤ r.year) × (¬ (f.decade +ℤ pos 10 ≤ℤ r.year)))

    abbrev Artist : Type 0
    Artist = (f.artist ≡ "") ⊎ (r.artist ≡ f.artist)

    abbrev Low : Type 0
    Low =
        (pf.float_gt f.min_price pf.float_zero ≡ false) ⊎ (pf.float_gt f.min_price r.price ≡ false)

    abbrev High : Type 0
    High =
        (pf.float_gt f.max_price pf.float_zero ≡ false) ⊎ (pf.float_gt r.price f.max_price ≡ false)

    abbrev Stock : Type 0
    Stock = (f.in_stock ≡ false) ⊎ (¬ (r.stock ≤ℤ pos 0))

    abbrev choices : String → List String → Query
    choices k xs = if is_nonempty xs then one_of k xs ∷ [] else []

    abbrev by_decade : Query
    by_decade =
        if eq_ℤ f.decade (pos 0)
        then []
        else at_least "year" f.decade ∷ below "year" (add_int f.decade (pos 10)) ∷ []

    abbrev by_artist : Query
    by_artist = if f.artist == "" then [] else is_string "artist" f.artist ∷ []

    abbrev by_low : Query
    by_low =
        if pf.float_gt f.min_price pf.float_zero
        then costs_at_least "price" f.min_price ∷ []
        else []

    abbrev by_high : Query
    by_high =
        if pf.float_gt f.max_price pf.float_zero then costs_at_most "price" f.max_price ∷ [] else []

    abbrev by_stock : Query
    by_stock = if f.in_stock then above "stock" (pos 0) ∷ [] else []

    -- The conditions, one field after the other.
    parts :
        Fits (
          choices "genre" f.genres
          ++ by_decade
          ++ choices "format" f.formats
          ++ choices "condition" f.conditions
          ++ by_artist
          ++ by_low
          ++ by_high
          ++ by_stock)
        ↔ (((((((Among f.genres r.genre × Decade) × Among f.formats r.format)
                    × Among f.conditions r.condition)
                  × Artist)
                × Low)
              × High)
            × Stock)
    parts =
        let years =
          also (choices "genre" f.genres) by_decade (among "genre" f.genres r.genre refl)
            (unless (eq_ℤ f.decade (pos 0)) _ _ _ (eq_ℤ_zero f.decade) in_decade) in
        let formats =
          also _ (choices "format" f.formats) years (among "format" f.formats r.format refl) in
        let conditions =
          also _ (choices "condition" f.conditions) formats
            (among "condition" f.conditions r.condition refl) in
        let artists = also _ by_artist conditions (
          unless (f.artist == "") _ _ _ (eq_iff f.artist "")
            ((λ m. some-injective r.artist f.artist m.0), λ e. (ap some e, tt))) in
        let lows = also _ by_low artists (
          if_asked _ (costs_at_least "price" f.min_price) _
            (field r.price (λ c. pf.float_gt f.min_price c ≡ false))) in
        let highs = also _ by_high lows (
          if_asked _ (costs_at_most "price" f.max_price) _
            (field r.price (λ c. pf.float_gt c f.max_price ≡ false))) in
        also _ by_stock highs
          (if_asked f.in_stock (above "stock" (pos 0)) _ (field r.stock (λ m. ¬ (m ≤ℤ pos 0))))

    -- The query that `GetFilteredRecords` sends matches a record just if the record is not archived
    -- and every field of the filter wants it: a list of choices, an artist or a price of zero that
    -- is not given wants every record; a decade is ten years, and its end is an `int`.
    pub record_query-Wants : Fits (record_query pf f) ↔ Wants pf f r
    unfolding record_query
    record_query-Wants = (
      (λ m.
          let h = parts.0 m.1 in
          record {
            listed = some-injective r.archived false m.0;
            genre = h.0.0.0.0.0.0.0;
            decade = h.0.0.0.0.0.0.1;
            format = h.0.0.0.0.0.1;
            condition = h.0.0.0.0.1;
            artist = h.0.0.0.1;
            min_price = h.0.0.1;
            max_price = h.0.1;
            stock = h.1;
          }),
      λ w. (
        ap some w.listed,
        parts.1 (
          ((((((w.genre, w.decade), w.format), w.condition), w.artist), w.min_price), w.max_price),
          w.stock,
        ),
      ),
    )

-- What `GetFilteredRecords` replies is stored and wanted by the filter, if the driver behaves as
-- documented; it changes nothing. The end of the decade is an `int`.
pub get_filtered_records-Wants :
    {W : Type 0} (s : MongoStore W) (pf : Platform) (view : W → Db)
    → Behaves record_fields pf.float_gt s.records view (λ d. d.records) with_record (λ r. r.id)
    → (f : RecordFilter) (w : W) → add_int f.decade (pos 10) ≡ f.decade +ℤ pos 10
    → let answer = get_filtered_records s pf f w in
      Reads answer.0
        (λ p. All (λ r. ((view w).records r.id ≡ some r) × Wants pf f r) p.0)
        (view w)
        (view answer.1)
unfolding get_filtered_records
get_filtered_records-Wants s pf view records f w fits =
    list_by-Reads _ _ s.records view _ _ _ records _ _ _ w
      (λ r stored m. (stored, (record_query-Wants pf r f fits).0 m))
