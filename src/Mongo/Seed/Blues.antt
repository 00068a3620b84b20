-- ===== src/Mongo/Seed/Blues.antt =====
-- The blues records of `SeedData` (store/mongo.go).
use zerohttp_example.Base.{List, [], ◌∷◌}
use zerohttp_example.Base.Int.{pos}
use zerohttp_example.Models.Catalog.{
  condition_mint, condition_nm, condition_nm_minus, condition_vg, condition_vg_plus, format_lp,
  genre_blues,
}
use zerohttp_example.Mongo.Seed.Row.{Seed, seed}

abbrev pub blues_records : List Seed
blues_records =
    seed "rec-078" "At Last!" "Etta James" (pos 1960) "Argo" "LP 4003" format_lp genre_blues
      condition_vg_plus 1999 (pos 2) "Includes timeless At Last"
    ∷ seed "rec-079" "King of the Delta Blues Singers" "Robert Johnson" (pos 1961) "Columbia"
        "CL 1654" format_lp genre_blues condition_nm 3299 (pos 3)
        "Essential pre-war blues collection"
    ∷ seed "rec-080" "Born Under a Bad Sign" "Albert King" (pos 1967) "Stax" "STS 7235" format_lp
        genre_blues condition_nm_minus 2499 (pos 4) "Electric blues cornerstone"
    ∷ seed "rec-081" "Live at the Regal" "B.B. King" (pos 1965) "ABC" "ABC 509" format_lp
        genre_blues condition_mint 2999 (pos 2) "The thrill is live"
    ∷ seed "rec-082" "Texas Flood" "Stevie Ray Vaughan" (pos 1983) "Epic" "E 38748" format_lp
        genre_blues condition_nm 2699 (pos 5) "Modern blues guitar explosion"
    ∷ seed "rec-083" "Lady Sings the Blues" "Billie Holiday" (pos 1956) "Clef" "MGC 169" format_lp
        genre_blues condition_vg 1599 (pos 3) "Verve years compilation"
    ∷ seed "rec-084" "Hard Again" "Muddy Waters" (pos 1977) "Blue Sky" "JZ 34939" format_lp
        genre_blues condition_nm 2299 (pos 4) "Johnny Winter produced comeback"
    ∷ seed "rec-085" "The Healer" "John Lee Hooker" (pos 1989) "Chameleon" "D2-74808" format_lp
        genre_blues condition_nm_minus 2099 (pos 5) "Late career Grammy-winning collaboration"
    ∷ []
