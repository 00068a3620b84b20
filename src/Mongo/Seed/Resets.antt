-- ===== src/Mongo/Seed/Resets.antt =====
-- What `SeedData` leaves in the store (store/mongo.go).
use zerohttp_example.Base.{
  String, ◌≡◌, refl, ap, ◌∙◌, inl, inr, Bool-cases, true, false, ◌==◌, if◌then◌else◌, Option, none,
  some, List, [], ◌∷◌,
}
use zerohttp_example.Models.{Record}
use zerohttp_example.Models.New.{new_record, new_base}
use zerohttp_example.Models.Platform.{Platform}
use zerohttp_example.Store.Spec.{Db, with_record}
use zerohttp_example.Store.Rules.{on_new_xid, on_pure, on_write}
use zerohttp_example.Prog.{Flow, ran, stopped}
use zerohttp_example.Prog.Always.{Always, always_seq}
use zerohttp_example.Prog.Succeeds.{Succeeds, NoErr, succeeds_seq, succeeds_mono, always-succeeds}
use zerohttp_example.Mongo.Seed.{seeds, seed_record, seed_records, save_all, seed_data}
use zerohttp_example.Mongo.Seed.Row.{Seed}

-- The record is as the row says, each field of it, and not archived.
pub record IsSeed (pf : Platform) (s : Seed) (x : Record) : Type 0 where
  pub id : x.id ≡ s.id
  pub title : x.title ≡ s.title
  pub artist : x.artist ≡ s.artist
  pub year : x.year ≡ s.year
  pub label : x.label ≡ s.label
  pub catalog_number : x.catalog_number ≡ s.catalog_number
  pub format : x.format ≡ s.format
  pub genre : x.genre ≡ s.genre
  pub condition : x.condition ≡ s.condition
  pub description : x.description ≡ s.description
  pub price : x.price ≡ pf.float_hundredths s.price
  pub stock : x.stock ≡ s.stock
  pub listed : x.archived ≡ false

abbrev AreSeeds : Platform → List Seed → List Record → Type 0
AreSeeds pf [] [] = Unit {0}
AreSeeds pf (s ∷ ss) (r ∷ rs) = IsSeed pf s r × AreSeeds pf ss rs
AreSeeds pf _ _ = ⊥

-- The last row with the id, `acc` if there is none.
abbrev pub row_for : List Seed → String → Option Seed → Option Seed
row_for [] j acc = acc
row_for (s ∷ ss) j acc = row_for ss j (if j == s.id then some s else acc)

-- The last record with the id, `o` if there is none.
abbrev latest : List Record → String → Option Record → Option Record
latest [] j o = o
latest (r ∷ rs) j o = latest rs j (if j == r.id then some r else o)

-- A record with a row is as the row says, any other is as it was.
abbrev pub IsReset : Platform → Option Seed → Option Record → Option Record → Type 0
IsReset pf none old new = new ≡ old
IsReset pf (some s) old new = (x : Record) × (new ≡ some x) × IsSeed pf s x

module _ (pf : Platform) where
  latest-IsReset :
      (ss : List Seed) (rs : List Record) (j : String) (acc : Option Seed) (old new : Option Record)
      → AreSeeds pf ss rs
      → IsReset pf acc old new
      → IsReset pf (row_for ss j acc) old (latest rs j new)
  latest-IsReset [] [] j acc old new m h = h
  latest-IsReset (s ∷ ss) (r ∷ rs) j acc old new m h = elim (Bool-cases (j == s.id)) [
    | inl e ↦
        let same : (j == r.id) ≡ true = ap (λ i. j == i) m.0.id ∙ e in
        rw (e, same) (latest-IsReset ss rs j (some s) old (some r) m.1 (r, refl, m.0))
    | inr e ↦
        let other : (j == r.id) ≡ false = ap (λ i. j == i) m.0.id ∙ e in
        rw (e, other) (latest-IsReset ss rs j acc old new m.1 h)
  ]
  latest-IsReset [] (r ∷ rs) j acc old new m h = absurd m
  latest-IsReset (s ∷ ss) [] j acc old new m h = absurd m

  -- The rows become records, and nothing is stored.
  seed_records-AreSeeds :
      (ss : List Seed) (d : Db)
      → Always
          (seed_records pf ss)
          d
          λ f e. elim f [ ran rs ↦ AreSeeds pf ss rs × (e ≡ d) | stopped o ↦ ⊥ ]
  unfolding seed_records seed_record new_record new_base
  seed_records-AreSeeds [] d = (tt, refl)
  seed_records-AreSeeds (s ∷ ss) d = on_new_xid _ λ id _ _ _ _. on_pure _ λ created. on_pure _ λ u.
      always_seq (seed_records pf ss) _ d _ _ (seed_records-AreSeeds ss d) (elim [
        | ran rs ↦ λ e h. (
          (
            record {
              id = refl;
              title = refl;
              artist = refl;
              year = refl;
              label = refl;
              catalog_number = refl;
              format = refl;
              genre = refl;
              condition = refl;
              description = refl;
              price = refl;
              stock = refl;
              listed = refl;
            },
            h.0,
          ),
          h.1,
        )
        | stopped o ↦ λ e h. absurd h
      ])

abbrev IsSaved : List Record → Db → Flow (Unit {0}) → Db → Type 0
IsSaved rs d (ran _) e =
    ((j : String) → e.records j ≡ latest rs j (d.records j))
    × (e.users ≡ d.users)
    × (e.orders ≡ d.orders)
IsSaved rs d (stopped o) e = ⊥

save_all-IsSaved : (rs : List Record) (d : Db) → Succeeds (save_all rs) d (IsSaved rs d)
unfolding save_all
save_all-IsSaved [] d = ((λ j. refl), refl, refl)
save_all-IsSaved (r ∷ rs) d =
    on_write (λ x m. NoErr x → _) (λ t. λ bad. absurd bad) (λ t. λ bad. absurd bad)
      (λ _. save_all-IsSaved rs (with_record d r))

-- The database after `SeedData`.
abbrev pub Resets : Platform → Db → Flow (Unit {0}) → Db → Type 0
Resets pf d (ran _) e =
    ((j : String) → IsReset pf (row_for seeds j none) (d.records j) (e.records j))
    × (e.users ≡ d.users)
    × (e.orders ≡ d.orders)
Resets pf d (stopped o) e = ⊥

-- Whatever has happened to the store before, `SeedData` leaves each record that has a row of the
-- sample data as the row says, in all its fields, and not archived, if no store call fails; all other records, the users and the orders stay as they are.
pub seed_data-Resets : (pf : Platform) (d : Db) → Succeeds (seed_data pf) d (Resets pf d)
unfolding seed_data
seed_data-Resets pf d =
    succeeds_seq (seed_records pf seeds) _ d _ _
      (always-succeeds (seed_records pf seeds) d _ (seed_records-AreSeeds pf seeds d))
      (elim [
        | ran rs ↦ λ e h. rw h.1 (
            succeeds_mono (save_all rs) d (IsSaved rs d) (Resets pf d)
              (elim [
                | ran _ ↦ λ e' g. (
                  (λ j.
                      rw (g.0 j)
                        (latest-IsReset pf seeds rs j none (d.records j) (d.records j) h.0 refl)),
                  g.1,
                  g.2,
                )
                | stopped o ↦ λ e' g. g
              ])
              (save_all-IsSaved rs d))
        | stopped o ↦ λ e h. absurd h
      ])
