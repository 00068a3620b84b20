-- ===== src/Mongo/Seed/Electronic.antt =====
-- The electronic records of `SeedData` (store/mongo.go).
use zerohttp_example.Base.{List, [], ◌∷◌}
use zerohttp_example.Base.Int.{pos}
use zerohttp_example.Models.Catalog.{
  condition_mint, condition_nm, condition_nm_minus, condition_vg, condition_vg_plus, format_lp,
  genre_electronic,
}
use zerohttp_example.Mongo.Seed.Row.{Seed, seed}

abbrev pub electronic_records : List Seed
electronic_records =
    seed "rec-036" "Discovery" "Daft Punk" (pos 2001) "Virgin" "7243 8 10166 1 2" format_lp
      genre_electronic condition_nm_minus 2499 (pos 8) "French house at its finest"
    ∷ seed "rec-037" "Random Access Memories" "Daft Punk" (pos 2013) "Columbia" "888837-16861"
        format_lp genre_electronic condition_mint 2899 (pos 10)
        "Grammy-winning disco-infused electronic"
    ∷ seed "rec-038" "Selected Ambient Works 85-92" "Aphex Twin" (pos 1992) "Apollo" "AMB 3922"
        format_lp genre_electronic condition_nm 3399 (pos 4) "Ambient techno cornerstone"
    ∷ seed "rec-039" "Music Has the Right to Children" "Boards of Canada" (pos 1998) "Warp"
        "WARPLP55" format_lp genre_electronic condition_nm 2999 (pos 3)
        "IDM classic with nostalgic samples"
    ∷ seed "rec-040" "Untrue" "Burial" (pos 2007) "Hyperdub" "HDBCD002" format_lp genre_electronic
        condition_nm_minus 2699 (pos 5) "Dubstep masterpiece"
    ∷ seed "rec-041" "Homework" "Daft Punk" (pos 1997) "Virgin" "7243 8 42609 1 0" format_lp
        genre_electronic condition_vg_plus 2199 (pos 4) "Daft Punk's debut with Around the World"
    ∷ seed "rec-042" "Play" "Moby" (pos 1999) "Mute" "STUMM172" format_lp genre_electronic
        condition_nm 1999 (pos 6) "Licensing hit with blues samples"
    ∷ seed "rec-043" "Dummy" "Portishead" (pos 1994) "Go! Discs" "828 522-1" format_lp
        genre_electronic condition_nm 2799 (pos 5) "Trip-hop Bristol sound"
    ∷ seed "rec-044" "Leftism" "Leftfield" (pos 1995) "Hard Hands" "HANDLP2T" format_lp
        genre_electronic condition_mint 3199 (pos 3) "Progressive house classic"
    ∷ seed "rec-045" "Exit Planet Dust" "The Chemical Brothers" (pos 1995) "Junior Boy's Own"
        "JBOLP5" format_lp genre_electronic condition_vg 2299 (pos 4) "Big beat pioneers debut"
    ∷ seed "rec-046" "Replica" "Oneohtrix Point Never" (pos 2011) "Mexican Summer" "MEX 0603"
        format_lp genre_electronic condition_nm 2499 (pos 3) "Experimental vaporwave sample collage"
    ∷ seed "rec-047" "Rounds" "Four Tet" (pos 2003) "Domino" "WIGLP100" format_lp genre_electronic
        condition_nm_minus 2399 (pos 5) "Folktronica glitchy beats"
    ∷ []
