-- ===== src/Mongo/Seed/Rock.antt =====
-- The rock records of `SeedData` (store/mongo.go).
use zerohttp_example.Base.{List, [], ◌∷◌}
use zerohttp_example.Base.Int.{pos}
use zerohttp_example.Models.Catalog.{
  condition_mint, condition_nm, condition_nm_minus, condition_vg, condition_vg_plus, format_lp,
  genre_rock,
}
use zerohttp_example.Mongo.Seed.Row.{Seed, seed}

abbrev pub rock_records : List Seed
rock_records =
    seed "rec-016" "The Dark Side of the Moon" "Pink Floyd" (pos 1973) "Harvest" "SHVL 804"
      format_lp genre_rock condition_mint 3499 (pos 3) "Psychedelic rock masterpiece"
    ∷ seed "rec-017" "Abbey Road" "The Beatles" (pos 1969) "Apple" "PCS 7088" format_lp genre_rock
        condition_vg_plus 3999 (pos 2) "The Beatles' final recorded album"
    ∷ seed "rec-018" "The Rise and Fall of Ziggy Stardust" "David Bowie" (pos 1972) "RCA" "SF 8287"
        format_lp genre_rock condition_nm 3199 (pos 5) "Glam rock concept album classic"
    ∷ seed "rec-019" "Purple Rain" "Prince" (pos 1984) "Warner Bros." "25110-1" format_lp genre_rock
        condition_nm_minus 2699 (pos 6) "Prince's magnum opus"
    ∷ seed "rec-020" "Rumours" "Fleetwood Mac" (pos 1977) "Warner Bros." "BSK 3010" format_lp
        genre_rock condition_nm 2499 (pos 8) "Breakup album that defined the 70s"
    ∷ seed "rec-021" "Led Zeppelin IV" "Led Zeppelin" (pos 1971) "Atlantic" "SD 7208" format_lp
        genre_rock condition_mint 3699 (pos 4) "Features Stairway to Heaven"
    ∷ seed "rec-022" "Nevermind" "Nirvana" (pos 1991) "DGC" "DGCC-24425" format_lp genre_rock
        condition_nm 2999 (pos 6) "Grunge breakthrough album"
    ∷ seed "rec-023" "OK Computer" "Radiohead" (pos 1997) "Parlophone" "7243 8 55229 1 5" format_lp
        genre_rock condition_nm_minus 2799 (pos 5) "Alternative rock art masterpiece"
    ∷ seed "rec-024" "The Doors" "The Doors" (pos 1967) "Elektra" "EKS-74007" format_lp genre_rock
        condition_vg 1899 (pos 3) "Debut with Light My Fire"
    ∷ seed "rec-025" "Born to Run" "Bruce Springsteen" (pos 1975) "Columbia" "PC 33795" format_lp
        genre_rock condition_nm 2299 (pos 4) "Springsteen's breakthrough"
    ∷ seed "rec-026" "London Calling" "The Clash" (pos 1979) "CBS" "S CBS 8380" format_lp genre_rock
        condition_vg_plus 2699 (pos 3) "Punk/post-punk double album"
    ∷ seed "rec-027" "Are You Experienced" "The Jimi Hendrix Experience" (pos 1967) "Track"
        "612 001" format_lp genre_rock condition_nm_minus 2999 (pos 4)
        "Psychedelic rock guitar revolution"
    ∷ seed "rec-028" "Pet Sounds" "The Beach Boys" (pos 1966) "Capitol" "T 2458" format_lp
        genre_rock condition_nm 3499 (pos 2) "Art pop production masterpiece"
    ∷ seed "rec-029" "Who's Next" "The Who" (pos 1971) "Track" "2408 102" format_lp genre_rock
        condition_mint 3299 (pos 3) "Features Baba O'Riley and Won't Get Fooled Again"
    ∷ seed "rec-030" "Paranoid" "Black Sabbath" (pos 1970) "Vertigo" "VO 6" format_lp genre_rock
        condition_vg_plus 2499 (pos 5) "Heavy metal foundation"
    ∷ seed "rec-031" "Joshua Tree" "U2" (pos 1987) "Island" "U2-6" format_lp genre_rock condition_nm
        2199 (pos 6) "Stadium rock anthem collection"
    ∷ seed "rec-032" "Blood on the Tracks" "Bob Dylan" (pos 1975) "Columbia" "PC 33235" format_lp
        genre_rock condition_nm_minus 2399 (pos 4) "Dylan's emotional breakup album"
    ∷ seed "rec-033" "Appetite for Destruction" "Guns N' Roses" (pos 1987) "Geffen" "GHS 24148"
        format_lp genre_rock condition_nm 2599 (pos 7) "Hard rock rebirth in the late 80s"
    ∷ seed "rec-034" "Is This It" "The Strokes" (pos 2001) "RCA" "07863 68003-1" format_lp
        genre_rock condition_mint 2799 (pos 5) "Garage rock revival classic"
    ∷ seed "rec-035" "Fun House" "The Stooges" (pos 1970) "Elektra" "EKS-74091" format_lp genre_rock
        condition_vg 2999 (pos 2) "Raw proto-punk energy"
    ∷ []
