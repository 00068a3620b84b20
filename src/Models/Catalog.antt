-- ===== src/Models/Catalog.antt =====
-- The named strings of models/record.go: formats, genres and grades of condition.
use zerohttp_example.Base.{String, List, [], ◌∷◌}

abbrev pub format_lp : String
format_lp = "lp"

abbrev pub format_7_in : String
format_7_in = "7in"

abbrev pub format_10_in : String
format_10_in = "10in"

abbrev pub format_12_in : String
format_12_in = "12in"

abbrev pub formats : List String
formats = format_lp ∷ format_7_in ∷ format_10_in ∷ format_12_in ∷ []

abbrev pub genre_jazz : String
genre_jazz = "jazz"

abbrev pub genre_rock : String
genre_rock = "rock"

abbrev pub genre_electronic : String
genre_electronic = "electronic"

abbrev pub genre_hip_hop : String
genre_hip_hop = "hip-hop"

abbrev pub genre_classical : String
genre_classical = "classical"

abbrev pub genre_soul : String
genre_soul = "soul"

abbrev pub genre_funk : String
genre_funk = "funk"

abbrev pub genre_blues : String
genre_blues = "blues"

abbrev pub genres : List String
genres =
    genre_jazz ∷ genre_rock ∷ genre_electronic ∷ genre_hip_hop ∷ genre_classical ∷ genre_soul
    ∷ genre_funk ∷ genre_blues ∷ []

abbrev pub condition_mint : String
condition_mint = "mint"

abbrev pub condition_nm_minus : String
condition_nm_minus = "nm-"

abbrev pub condition_nm : String
condition_nm = "nm"

abbrev pub condition_vg_plus : String
condition_vg_plus = "vg+"

abbrev pub condition_vg : String
condition_vg = "vg"

abbrev pub condition_g_plus : String
condition_g_plus = "g+"

abbrev pub conditions : List String
conditions =
    condition_mint ∷ condition_nm_minus ∷ condition_nm ∷ condition_vg_plus ∷ condition_vg
    ∷ condition_g_plus ∷ []
