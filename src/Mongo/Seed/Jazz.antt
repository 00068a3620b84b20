-- ===== src/Mongo/Seed/Jazz.antt =====
-- The jazz records of `SeedData` (store/mongo.go).
use zerohttp_example.Base.{List, [], ◌∷◌}
use zerohttp_example.Base.Int.{pos}
use zerohttp_example.Models.Catalog.{
  condition_mint, condition_nm, condition_nm_minus, condition_vg, condition_vg_plus, format_lp,
  genre_jazz,
}
use zerohttp_example.Mongo.Seed.Row.{Seed, seed}

abbrev pub jazz_records : List Seed
jazz_records =
    seed "rec-001" "Kind of Blue" "Miles Davis" (pos 1959) "Columbia" "CL 1355" format_lp genre_jazz
      condition_nm 2999 (pos 5) "Essential modal jazz masterpiece"
    ∷ seed "rec-002" "A Love Supreme" "John Coltrane" (pos 1965) "Impulse!" "A-77" format_lp
        genre_jazz condition_nm 3299 (pos 4) "Spiritual jazz cornerstone"
    ∷ seed "rec-003" "Blue Train" "John Coltrane" (pos 1958) "Blue Note" "BLP 1577" format_lp
        genre_jazz condition_mint 4499 (pos 1) "Hard bop classic with all-star lineup"
    ∷ seed "rec-004" "Time Out" "The Dave Brubeck Quartet" (pos 1959) "Columbia" "CL 1397" format_lp
        genre_jazz condition_nm_minus 2499 (pos 6) "Features Take Five in 5/4 time"
    ∷ seed "rec-005" "The Shape of Jazz to Come" "Ornette Coleman" (pos 1959) "Atlantic" "SD 1317"
        format_lp genre_jazz condition_vg_plus 2799 (pos 3) "Free jazz pioneering album"
    ∷ seed "rec-006" "Mingus Ah Um" "Charles Mingus" (pos 1959) "Columbia" "CL 1370" format_lp
        genre_jazz condition_nm 2699 (pos 4) "Mingus masterpiece with gospel and blues roots"
    ∷ seed "rec-007" "Sunday at the Village Vanguard" "Bill Evans Trio" (pos 1961) "Riverside"
        "RLP-376" format_lp genre_jazz condition_nm_minus 3499 (pos 2) "Live piano trio perfection"
    ∷ seed "rec-008" "Saxophone Colossus" "Sonny Rollins" (pos 1956) "Prestige" "PRLP 7079"
        format_lp genre_jazz condition_mint 3999 (pos 3) "Includes St. Thomas and Blue 7"
    ∷ seed "rec-009" "Somethin' Else" "Cannonball Adderley" (pos 1958) "Blue Note" "BLP 1595"
        format_lp genre_jazz condition_nm 2999 (pos 5) "Miles Davis sits in on this session"
    ∷ seed "rec-010" "The Sidewinder" "Lee Morgan" (pos 1964) "Blue Note" "BLP 4157" format_lp
        genre_jazz condition_vg 1999 (pos 4) "Soul jazz hit with iconic title track"
    ∷ seed "rec-011" "Head Hunters" "Herbie Hancock" (pos 1973) "Columbia" "KC 32731" format_lp
        genre_jazz condition_nm_minus 2299 (pos 7) "Jazz-funk fusion breakthrough"
    ∷ seed "rec-012" "Getz/Gilberto" "Stan Getz & João Gilberto" (pos 1964) "Verve" "V6-8545"
        format_lp genre_jazz condition_nm 2499 (pos 5) "Bossa nova classic with Girl from Ipanema"
    ∷ seed "rec-013" "Monk's Music" "Thelonious Monk" (pos 1957) "Riverside" "RLP 12-242" format_lp
        genre_jazz condition_vg_plus 2899 (pos 3) "Features John Coltrane on tenor"
    ∷ seed "rec-014" "Moanin'" "Art Blakey & The Jazz Messengers" (pos 1958) "Blue Note" "BLP 4003"
        format_lp genre_jazz condition_mint 4299 (pos 2) "Hard bop essential with Lee Morgan"
    ∷ seed "rec-015" "Out to Lunch!" "Eric Dolphy" (pos 1964) "Blue Note" "BLP 4163" format_lp
        genre_jazz condition_nm 3199 (pos 3) "Avant-garde jazz milestone"
    ∷ []
