-- ===== src/Mongo/Seed.antt =====
-- `SeedData` and `seedRecord` (store/mongo.go).
pub mod Row
pub mod Jazz
pub mod Rock
pub mod Electronic
pub mod HipHop
pub mod Soul
pub mod Funk
pub mod Blues
pub mod Classical
pub mod Resets
use zerohttp_example.Base.{List, [], ◌∷◌, ◌++◌}
use zerohttp_example.Models.{Record}
use zerohttp_example.Models.New.{new_record}
use zerohttp_example.Models.Platform.{Platform}
use zerohttp_example.Store.{save_record}
use zerohttp_example.Prog.{Prog, ret, ask, ◌>>=◌, ◌>>◌}
use Row.{Seed}
use Jazz.{jazz_records}
use Rock.{rock_records}
use Electronic.{electronic_records}
use HipHop.{hip_hop_records}
use Soul.{soul_records}
use Funk.{funk_records}
use Blues.{blues_records}
use Classical.{classical_records}

unfoldable pub seeds : List Seed
seeds =
    jazz_records ++ rock_records ++ electronic_records ++ hip_hop_records ++ soul_records
    ++ funk_records ++ blues_records ++ classical_records

module _ (pf : Platform) where
  -- The id that `NewRecord` draws is replaced.
  unfoldable pub seed_record : Seed → Prog Record
  unfolding new_record
  seed_record s = do
    r ← new_record (record {
      title = s.title;
      artist = s.artist;
      year = s.year;
      label = s.label;
      catalog_number = s.catalog_number;
      format = s.format;
      genre = s.genre;
      condition = s.condition;
      price = pf.float_hundredths s.price;
      stock = s.stock;
      description = s.description;
    })
    ret (record r { base = record r.base { id = s.id } })

  unfoldable pub seed_records : List Seed → Prog (List Record)
  unfolding seed_record
  seed_records [] = ret []
  seed_records (s ∷ ss) = do r ← seed_record s; rs ← seed_records ss; ret (r ∷ rs)

-- The loop; its errors are dropped.
unfoldable pub save_all : List Record → Prog (Unit {0})
save_all [] = ret tt
save_all (r ∷ rs) = do _ ← ask (save_record r); save_all rs

unfoldable pub seed_data : Platform → Prog (Unit {0})
unfolding seed_records save_all
seed_data pf = do rs ← seed_records pf seeds; save_all rs
