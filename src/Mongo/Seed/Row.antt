-- ===== src/Mongo/Seed/Row.antt =====
-- One row of the sample data of `SeedData` (store/mongo.go).
use zerohttp_example.Base.{ℕ, String}
use zerohttp_example.Base.Int.{ℤ}

-- The arguments of `seedRecord`; the price is in hundredths.
pub record Seed : Type 0 where
  pub id : String
  pub title : String
  pub artist : String
  pub year : ℤ
  pub label : String
  pub catalog_number : String
  pub format : String
  pub genre : String
  pub condition : String
  pub price : ℕ
  pub stock : ℤ
  pub description : String

abbrev pub seed :
    String
    → String
    → String
    → ℤ
    → String
    → String
    → String
    → String
    → String
    → ℕ
    → ℤ
    → String
    → Seed
seed id title artist year label catalog_number format genre condition price stock description =
    record {
      id = id;
      title = title;
      artist = artist;
      year = year;
      label = label;
      catalog_number = catalog_number;
      format = format;
      genre = genre;
      condition = condition;
      price = price;
      stock = stock;
      description = description;
    }
