-- ===== src/Tests/Startup.antt =====
-- The theorems on the sample data and the start-up at concrete inputs.
use zerohttp_example.Base.{refl}
use zerohttp_example.Prog.Succeeds.{Succeeds}
use zerohttp_example.Config.{default_config}
use zerohttp_example.Mongo.Seed.{seed_data}
use zerohttp_example.Mongo.Seed.Resets.{Resets, seed_data-Resets}
use zerohttp_example.App.Start.{start, IsReady, start-IsReady}
use zerohttp_example.Tests.Fixtures.{platform, shop}

seed_data-Resets_example : Succeeds (seed_data platform) shop (Resets platform shop)
seed_data-Resets_example = seed_data-Resets platform shop

start-IsReady_example :
    Succeeds (start platform default_config.app) shop (IsReady platform default_config.app shop)
start-IsReady_example = start-IsReady platform default_config.app shop refl refl
