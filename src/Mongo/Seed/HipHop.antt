-- ===== src/Mongo/Seed/HipHop.antt =====
-- The hip-hop records of `SeedData` (store/mongo.go).
use zerohttp_example.Base.{List, [], ◌∷◌}
use zerohttp_example.Base.Int.{pos}
use zerohttp_example.Models.Catalog.{
  condition_mint, condition_nm, condition_nm_minus, condition_vg, condition_vg_plus, format_lp,
  genre_hip_hop,
}
use zerohttp_example.Mongo.Seed.Row.{Seed, seed}

abbrev pub hip_hop_records : List Seed
hip_hop_records =
    seed "rec-048" "Enter the Wu-Tang (36 Chambers)" "Wu-Tang Clan" (pos 1993) "Loud"
      "07863 66336-1" format_lp genre_hip_hop condition_nm_minus 2999 (pos 7)
      "Raw Staten Island hip-hop classic"
    ∷ seed "rec-049" "Illmatic" "Nas" (pos 1994) "Columbia" "CK 57684" format_lp genre_hip_hop
        condition_mint 3499 (pos 2) "Queensbridge lyrical masterpiece"
    ∷ seed "rec-050" "Ready to Die" "The Notorious B.I.G." (pos 1994) "Bad Boy" "78612-73000-1"
        format_lp genre_hip_hop condition_nm 3199 (pos 4) "East Coast gangsta rap essential"
    ∷ seed "rec-051" "Midnight Marauders" "A Tribe Called Quest" (pos 1993) "Jive" "01241-41481-1"
        format_lp genre_hip_hop condition_nm 2799 (pos 5) "Jazz rap perfection"
    ∷ seed "rec-052" "Madvillainy" "Madvillain" (pos 2004) "Stones Throw" "STH 2065" format_lp
        genre_hip_hop condition_nm_minus 2899 (pos 3) "MF DOOM and Madlib collaboration"
    ∷ seed "rec-053" "The Low End Theory" "A Tribe Called Quest" (pos 1991) "Jive" "01241-41459-1"
        format_lp genre_hip_hop condition_vg_plus 2599 (pos 4) "Bass-heavy jazz rap evolution"
    ∷ seed "rec-054" "Paid in Full" "Eric B. & Rakim" (pos 1987) "4th & B'way" "BWAY 4004" format_lp
        genre_hip_hop condition_vg 1999 (pos 3) "Lyricism revolution"
    ∷ seed "rec-055" "Liquid Swords" "GZA" (pos 1995) "Geffen" "GEF-24705" format_lp genre_hip_hop
        condition_nm 2999 (pos 4) "Chess-themed Wu-Tang solo classic"
    ∷ seed "rec-056" "It Takes a Nation of Millions" "Public Enemy" (pos 1988) "Def Jam" "527 759-1"
        format_lp genre_hip_hop condition_nm 2499 (pos 5) "Political hip-hop bomb squad production"
    ∷ seed "rec-057" "My Beautiful Dark Twisted Fantasy" "Kanye West" (pos 2010) "Def Jam"
        "B0014695-01" format_lp genre_hip_hop condition_mint 3299 (pos 6) "Maximalist rap opera"
    ∷ seed "rec-058" "Endtroducing....." "DJ Shadow" (pos 1996) "Mo' Wax" "MW 061" format_lp
        genre_hip_hop condition_nm 2699 (pos 4) "Entirely sample-based instrumental hip-hop"
    ∷ seed "rec-059" "Aquemini" "OutKast" (pos 1998) "LaFace" "73008-26059-1" format_lp
        genre_hip_hop condition_nm_minus 2799 (pos 5) "Southern hip-hop cinematic masterpiece"
    ∷ []
