-- ===== src/Mongo/Seed/Classical.antt =====
-- The classical records of `SeedData` (store/mongo.go).
use zerohttp_example.Base.{List, [], ◌∷◌}
use zerohttp_example.Base.Int.{pos}
use zerohttp_example.Models.Catalog.{
  condition_mint, condition_nm, condition_nm_minus, condition_vg, condition_vg_plus, format_lp,
  genre_classical,
}
use zerohttp_example.Mongo.Seed.Row.{Seed, seed}

abbrev pub classical_records : List Seed
classical_records =
    seed "rec-086" "The Four Seasons" "Antonio Vivaldi" (pos 1959) "Decca" "SXL 2001" format_lp
      genre_classical condition_nm_minus 1899 (pos 3) "Baroque violin concertos"
    ∷ seed "rec-087" "Symphony No. 9 'Choral'" "Ludwig van Beethoven" (pos 1963)
        "Deutsche Grammophon" "SLPM 138801" format_lp genre_classical condition_nm 2199 (pos 4)
        "Karajan conducts the Berlin Philharmonic"
    ∷ seed "rec-088" "The Well-Tempered Clavier" "Johann Sebastian Bach" (pos 1965)
        "Deutsche Grammophon" "2720 006" format_lp genre_classical condition_mint 2499 (pos 2)
        "Glenn Gould piano interpretation"
    ∷ seed "rec-089" "Requiem" "Wolfgang Amadeus Mozart" (pos 1975) "Philips" "6769 011" format_lp
        genre_classical condition_nm 1999 (pos 3) "Böhm conducting Vienna Philharmonic"
    ∷ seed "rec-090" "The Planets" "Gustav Holst" (pos 1971) "EMI" "SLS 986" format_lp
        genre_classical condition_vg_plus 1699 (pos 4) "Boult conducts British classic"
    ∷ seed "rec-091" "Symphony No. 5" "Gustav Mahler" (pos 1973) "Deutsche Grammophon" "2709 077"
        format_lp genre_classical condition_nm_minus 2299 (pos 3)
        "Bernstein's emotional interpretation"
    ∷ seed "rec-092" "Cello Suites" "Johann Sebastian Bach" (pos 1961) "EMI" "ALP 1933" format_lp
        genre_classical condition_nm 2699 (pos 2) "Pablo Casals definitive recording"
    ∷ seed "rec-093" "La Mer / Nocturnes" "Claude Debussy" (pos 1964) "Decca" "SXL 6113" format_lp
        genre_classical condition_vg 1499 (pos 5) "Impressionist orchestral works"
    ∷ seed "rec-094" "The Rite of Spring" "Igor Stravinsky" (pos 1958) "Columbia" "ML 5192"
        format_lp genre_classical condition_nm 2099 (pos 4)
        "Stravinsky conducts his revolutionary ballet"
    ∷ seed "rec-095" "Piano Concerto No. 2" "Sergei Rachmaninoff" (pos 1972) "Decca" "SXL 6518"
        format_lp genre_classical condition_mint 2399 (pos 3) "Ashkenazy with Concertgebouw"
    ∷ seed "rec-096" "Symphony No. 7" "Anton Bruckner" (pos 1966) "Deutsche Grammophon" "139122"
        format_lp genre_classical condition_nm_minus 1899 (pos 4) "Karajan and Berlin Philharmonic"
    ∷ seed "rec-097" "Tristan und Isolde" "Richard Wagner" (pos 1972) "Deutsche Grammophon"
        "2720 021" format_lp genre_classical condition_nm 2799 (pos 2)
        "Böhm conducting Wagner's masterpiece"
    ∷ seed "rec-098" "Adagio for Strings" "Samuel Barber" (pos 1982) "EMI" "EL 27 0344 1" format_lp
        genre_classical condition_nm 1599 (pos 6) "Schwarz conducts emotional modern classic"
    ∷ seed "rec-099" "Symphonie Fantastique" "Hector Berlioz" (pos 1969) "Philips" "6500 094"
        format_lp genre_classical condition_vg_plus 1799 (pos 3)
        "Davis conducts revolutionary program symphony"
    ∷ seed "rec-100" "Goldberg Variations" "Johann Sebastian Bach" (pos 1955) "Columbia" "ML 5060"
        format_lp genre_classical condition_nm 2999 (pos 2)
        "Glenn Gould's legendary debut recording"
    ∷ []
