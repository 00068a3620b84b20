-- ===== src/Config.antt =====
-- The configuration (config/config.go): its types, its defaults, and how `Load` makes it from the
-- command line and the files. pflag's parser and viper are parameters.
pub mod Flags
pub mod Load
use zerohttp_example.Base.{ℕ, ◌*◌, String, Bool, true, false}
use zerohttp_example.Base.Int.{ℤ, pos}
use zerohttp_example.App.Limits.{RateLimitConfig}

pub record AppConfig : Type 0 where
  pub name : String
  pub seed_data : Bool
  pub create_admin : Bool
  pub admin_email : String
  pub admin_password : String
  pub enable_pprof : Bool
  pub pprof_username : String
  pub pprof_password : String

-- `time.Duration` is an integer of nanoseconds.
pub record ServerConfig : Type 0 where
  pub bind_addr : String
  pub bind_tls_addr : String
  pub shutdown_timeout : ℤ
  pub cert_file : String
  pub key_file : String
  pub enable_hsts : Bool

pub record RedisConfig : Type 0 where
  pub addr : String
  pub key_prefix : String
  pub lock_ttl : ℤ

pub record MongoConfig : Type 0 where
  pub uri : String
  pub database : String

pub record JwtConfig : Type 0 where
  pub private_key_path : String
  pub access_token_ttl : ℤ
  pub refresh_token_ttl : ℤ

pub record TracerConfig : Type 0 where
  pub enabled : Bool
  pub endpoint : String
  pub insecure : Bool

pub record Config : Type 0 where
  pub app : AppConfig
  pub server : ServerConfig
  pub redis : RedisConfig
  pub mongo : MongoConfig
  pub jwt : JwtConfig
  pub tracer : TracerConfig
  pub rate_limit : RateLimitConfig

abbrev second : ℕ
second = 1_000_000_000

abbrev pub minute : ℕ
minute = 60 * second

-- The literal that `Load` begins with; what it leaves out is a zero value.
abbrev pub default_config : Config
default_config = record {
  app = record {
    name = "vinyl-store-api";
    seed_data = true;
    create_admin = true;
    admin_email = "admin@example.com";
    admin_password = "admin123";
    enable_pprof = false;
    pprof_username = "";
    pprof_password = "";
  };
  server = record {
    bind_addr = "localhost:8080";
    bind_tls_addr = "";
    shutdown_timeout = pos (30 * second);
    cert_file = "";
    key_file = "";
    enable_hsts = false;
  };
  redis = record {
    addr = "localhost:6379";
    key_prefix = "vinylstore:";
    lock_ttl = pos (30 * second);
  };
  mongo = record {
    uri =
        "mongodb://localhost:27017/?connectTimeoutMS=10000&serverSelectionTimeoutMS=5000&socketTimeoutMS=30000";
    database = "vinylstore";
  };
  jwt = record {
    private_key_path = "jwt.key";
    access_token_ttl = pos (15 * minute);
    refresh_token_ttl = pos (7 * 24 * 60 * minute);
  };
  tracer = record { enabled = true; endpoint = "localhost:4317"; insecure = true };
  rate_limit = record {
    enabled = true;
    public = record { enabled = true; rate = pos 30; window = pos minute };
    authenticated = record { enabled = true; rate = pos 100; window = pos minute };
    auth_endpoints = record { enabled = true; rate = pos 5; window = pos minute };
  };
}
