-- ===== src/Config/Load.antt =====
-- `Load` (config/config.go): the defaults, then the flags, then what viper has read. pflag's
-- `Parse` on the command line and viper's `Unmarshal` each take the configuration so far.
use zerohttp_example.Base.{String, concat, List, Result, ok, err}
use zerohttp_example.Config.{Config, default_config}
use zerohttp_example.Config.Flags.{Flag, flags}

unfoldable pub unmarshalled : Result Config → Result Config
unmarshalled (err e) = err (concat "failed to unmarshal config: " e)
unmarshalled (ok c) = ok c

unfoldable pub after_flags : (Config → Result Config) → Result Config → Result Config
unfolding unmarshalled
after_flags unmarshal (err e) = err (concat "failed to parse flags: " e)
after_flags unmarshal (ok c) = unmarshalled (unmarshal c)

unfoldable pub load :
    (List Flag → List String → Config → Result Config)
    → (Config → Result Config)
    → List String
    → Result Config
unfolding after_flags
load parse unmarshal args = after_flags unmarshal (parse flags args default_config)
