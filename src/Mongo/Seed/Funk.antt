-- ===== src/Mongo/Seed/Funk.antt =====
-- The funk records of `SeedData` (store/mongo.go).
use zerohttp_example.Base.{List, [], ◌∷◌}
use zerohttp_example.Base.Int.{pos}
use zerohttp_example.Models.Catalog.{
  condition_mint, condition_nm, condition_nm_minus, condition_vg, condition_vg_plus, format_lp,
  genre_funk,
}
use zerohttp_example.Mongo.Seed.Row.{Seed, seed}

abbrev pub funk_records : List Seed
funk_records =
    seed "rec-068" "Maggot Brain" "Funkadelic" (pos 1971) "Westbound" "WB 2007" format_lp genre_funk
      condition_nm 3599 (pos 2) "Ten-minute title track guitar opus"
    ∷ seed "rec-069" "Mothership Connection" "Parliament" (pos 1975) "Casablanca" "NBLP 7022"
        format_lp genre_funk condition_nm_minus 2699 (pos 4) "P-Funk space opera"
    ∷ seed "rec-070" "There's a Riot Goin' On" "Sly & The Family Stone" (pos 1971) "Epic" "KE 30986"
        format_lp genre_funk condition_vg 2199 (pos 3) "Dark psychedelic funk"
    ∷ seed "rec-071" "Super Fly" "Curtis Mayfield" (pos 1972) "Curtom" "CRS 8014" format_lp
        genre_funk condition_nm 2499 (pos 5) "Blaxploitation soundtrack classic"
    ∷ seed "rec-072" "Sex Machine" "James Brown" (pos 1970) "King" "KS 1111" format_lp genre_funk
        condition_vg_plus 1999 (pos 4) "Live funk foundation"
    ∷ seed "rec-073" "Fire" "The Ohio Players" (pos 1974) "Westbound" "WB 5003" format_lp genre_funk
        condition_mint 2299 (pos 3) "Funk with killer guitar riffs"
    ∷ seed "rec-074" "Standing on the Verge of Getting It On" "Funkadelic" (pos 1974) "Westbound"
        "WB 2015" format_lp genre_funk condition_nm 2799 (pos 4) "Eddie Hazel guitar showcase"
    ∷ seed "rec-075" "Fresh" "Sly & The Family Stone" (pos 1973) "Epic" "KE 32453" format_lp
        genre_funk condition_nm_minus 2399 (pos 5) "Post-Riot stripped down funk"
    ∷ seed "rec-076" "The Payback" "James Brown" (pos 1973) "Polydor" "PD-2-3007" format_lp
        genre_funk condition_vg 1899 (pos 3) "Hardest working man in show business"
    ∷ seed "rec-077" "Afwk" "Bootsy's Rubber Band" (pos 1976) "Warner Bros." "BS 2963" format_lp
        genre_funk condition_nm 2599 (pos 4) "Bootsy Collins space bass"
    ∷ []
