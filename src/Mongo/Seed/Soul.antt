-- ===== src/Mongo/Seed/Soul.antt =====
-- The soul records of `SeedData` (store/mongo.go).
use zerohttp_example.Base.{List, [], ◌∷◌}
use zerohttp_example.Base.Int.{pos}
use zerohttp_example.Models.Catalog.{
  condition_mint, condition_nm, condition_nm_minus, condition_vg, condition_vg_plus, format_lp,
  genre_soul,
}
use zerohttp_example.Mongo.Seed.Row.{Seed, seed}

abbrev pub soul_records : List Seed
soul_records =
    seed "rec-060" "What's Going On" "Marvin Gaye" (pos 1971) "Tamla" "TS 310" format_lp genre_soul
      condition_vg_plus 2299 (pos 3) "Motown social consciousness masterpiece"
    ∷ seed "rec-061" "I Never Loved a Man the Way I Love You" "Aretha Franklin" (pos 1967)
        "Atlantic" "SD 8139" format_lp genre_soul condition_nm 2499 (pos 4)
        "Queen of Soul with Respect"
    ∷ seed "rec-062" "Hot Buttered Soul" "Isaac Hayes" (pos 1969) "Enterprise" "ENS-4005" format_lp
        genre_soul condition_mint 2899 (pos 2) "Epic cinematic soul"
    ∷ seed "rec-063" "Let's Get It On" "Marvin Gaye" (pos 1973) "Tamla" "TS 326" format_lp
        genre_soul condition_nm_minus 2199 (pos 5) "Sensual soul classic"
    ∷ seed "rec-064" "In the Wee Small Hours" "Frank Sinatra" (pos 1955) "Capitol" "W 581" format_lp
        genre_soul condition_vg 1699 (pos 3) "Concept album about loneliness"
    ∷ seed "rec-065" "Back to Black" "Amy Winehouse" (pos 2006) "Island" "171 163-8" format_lp
        genre_soul condition_nm 2599 (pos 6) "Modern soul revival with Mark Ronson"
    ∷ seed "rec-066" "Voodoo" "D'Angelo" (pos 2000) "Virgin" "7243 8 48747 1 0" format_lp genre_soul
        condition_nm 2999 (pos 4) "Neo-soul experimental masterpiece"
    ∷ seed "rec-067" "Shaft" "Isaac Hayes" (pos 1971) "Enterprise" "ENS-2-5002" format_lp genre_soul
        condition_vg_plus 2399 (pos 3) "Blaxploitation soundtrack double LP"
    ∷ []
