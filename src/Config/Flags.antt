-- ===== src/Config/Flags.antt =====
-- The flags of `Load` (config/config.go), each with the field that it is bound to.
use zerohttp_example.Base.{String, Bool, List, [], ◌∷◌}
use zerohttp_example.Base.Int.{ℤ}
use zerohttp_example.Config.{Config}

-- A flag by the type of its variable: its name, and how its field is set.
pub data Flag : Type 0 where
  string_var : String → (String → Config → Config) → Flag
  bool_var : String → (Bool → Config → Config) → Flag
  int_var : String → (ℤ → Config → Config) → Flag
  duration_var : String → (ℤ → Config → Config) → Flag

abbrev pub flags : List Flag
flags =
    string_var "app-name" (λ v c. record c { app = record c.app { name = v } })
    ∷ bool_var "seed-data" (λ v c. record c { app = record c.app { seed_data = v } })
    ∷ bool_var "create-admin" (λ v c. record c { app = record c.app { create_admin = v } })
    ∷ string_var "admin-email" (λ v c. record c { app = record c.app { admin_email = v } })
    ∷ string_var "admin-password" (λ v c. record c { app = record c.app { admin_password = v } })
    ∷ bool_var "enable-pprof" (λ v c. record c { app = record c.app { enable_pprof = v } })
    ∷ string_var "pprof-username" (λ v c. record c { app = record c.app { pprof_username = v } })
    ∷ string_var "pprof-password" (λ v c. record c { app = record c.app { pprof_password = v } })
    ∷ string_var "bind-addr" (λ v c. record c { server = record c.server { bind_addr = v } })
    ∷ string_var "bind-tls-addr"
        (λ v c. record c { server = record c.server { bind_tls_addr = v } })
    ∷ duration_var "shutdown-timeout"
        (λ v c. record c { server = record c.server { shutdown_timeout = v } })
    ∷ string_var "cert-file" (λ v c. record c { server = record c.server { cert_file = v } })
    ∷ string_var "key-file" (λ v c. record c { server = record c.server { key_file = v } })
    ∷ bool_var "enable-hsts" (λ v c. record c { server = record c.server { enable_hsts = v } })
    ∷ string_var "redis-addr" (λ v c. record c { redis = record c.redis { addr = v } })
    ∷ string_var "redis-key-prefix" (λ v c. record c { redis = record c.redis { key_prefix = v } })
    ∷ duration_var "redis-lock-ttl" (λ v c. record c { redis = record c.redis { lock_ttl = v } })
    ∷ string_var "mongo-uri" (λ v c. record c { mongo = record c.mongo { uri = v } })
    ∷ string_var "mongo-database" (λ v c. record c { mongo = record c.mongo { database = v } })
    ∷ string_var "jwt-private-key-path"
        (λ v c. record c { jwt = record c.jwt { private_key_path = v } })
    ∷ duration_var "jwt-access-ttl"
        (λ v c. record c { jwt = record c.jwt { access_token_ttl = v } })
    ∷ duration_var "jwt-refresh-ttl"
        (λ v c. record c { jwt = record c.jwt { refresh_token_ttl = v } })
    ∷ bool_var "tracer-enabled" (λ v c. record c { tracer = record c.tracer { enabled = v } })
    ∷ string_var "tracer-endpoint" (λ v c. record c { tracer = record c.tracer { endpoint = v } })
    ∷ bool_var "tracer-insecure" (λ v c. record c { tracer = record c.tracer { insecure = v } })
    ∷ bool_var "rate-limit-enabled"
        (λ v c. record c { rate_limit = record c.rate_limit { enabled = v } })
    ∷ int_var "rate-limit-public-rate" (λ v c. record c {
      rate_limit = record c.rate_limit { public = record c.rate_limit.public { rate = v } };
    })
    ∷ duration_var "rate-limit-public-window" (λ v c. record c {
      rate_limit = record c.rate_limit { public = record c.rate_limit.public { window = v } };
    })
    ∷ int_var "rate-limit-auth-rate" (λ v c. record c {
      rate_limit = record c.rate_limit {
        authenticated = record c.rate_limit.authenticated { rate = v };
      };
    })
    ∷ duration_var "rate-limit-auth-window" (λ v c. record c {
      rate_limit = record c.rate_limit {
        authenticated = record c.rate_limit.authenticated { window = v };
      };
    })
    ∷ int_var "rate-limit-login-rate" (λ v c. record c {
      rate_limit = record c.rate_limit {
        auth_endpoints = record c.rate_limit.auth_endpoints { rate = v };
      };
    })
    ∷ duration_var "rate-limit-login-window" (λ v c. record c {
      rate_limit = record c.rate_limit {
        auth_endpoints = record c.rate_limit.auth_endpoints { window = v };
      };
    })
    ∷ []
