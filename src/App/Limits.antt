-- ===== src/App/Limits.antt =====
-- The rate limit tiers and the global middleware (app/server.go), from the configuration
-- (config/config.go).
use zerohttp_example.Base.{
  String, Bool, true, not, ◌||◌, ◌≡◌, ◌↔◌, refl, if◌then◌else◌, Bool-cases, inl, inr, Option, none,
  some, List, [], ◌∷◌, ◌++◌, map, All,
}
use zerohttp_example.Base.Int.{ℤ}

-- `time.Duration` is an integer of nanoseconds.
pub record TierRateLimitConfig : Type 0 where
  pub enabled : Bool
  pub rate : ℤ
  pub window : ℤ

pub record RateLimitConfig : Type 0 where
  pub enabled : Bool
  pub public : TierRateLimitConfig
  pub authenticated : TierRateLimitConfig
  pub auth_endpoints : TierRateLimitConfig

-- The two key extractors of zerohttp that are used.
pub data KeyExtractor : Type 0 where
  by_ip : KeyExtractor
  by_jwt_subject : KeyExtractor

-- `ratelimit.Config`, with the rate and the window of its token bucket in Redis.
pub record LimitConfig : Type 0 where
  pub store_rate : ℤ
  pub store_window : ℤ
  pub rate : ℤ
  pub window : ℤ
  pub key_extractor : KeyExtractor
  pub included_paths : List String

-- The rate and the window that the log line of a tier names.
pub record Logged : Type 0 where
  pub rate : ℤ
  pub window : ℤ

-- A token bucket in Redis and its middleware, both with the given rate and window.
abbrev pub token_bucket : ℤ → ℤ → KeyExtractor → List String → LimitConfig
token_bucket rate window key paths = record {
  store_rate = rate;
  store_window = window;
  rate = rate;
  window = window;
  key_extractor = key;
  included_paths = paths;
}

unfoldable pub setup_authenticated_rate_limit : RateLimitConfig → Option (LimitConfig × Logged)
setup_authenticated_rate_limit cfg =
    if not cfg.enabled || not cfg.authenticated.enabled
    then none
    else let rate = cfg.authenticated.rate in
      let window = cfg.authenticated.window in
      some (
        token_bucket rate window by_jwt_subject ("/orders*" ∷ "/auth/logout" ∷ []),
        record { rate = rate; window = window },
      )

-- Each middleware of the tiers with its log line.
unfoldable pub setup_tiered_rate_limit : RateLimitConfig → List (LimitConfig × Logged)
setup_tiered_rate_limit cfg =
    let rate = cfg.authenticated.rate in
    let window = cfg.authenticated.window in
    (if cfg.public.enabled
      then (
        token_bucket rate window by_ip ("/records*" ∷ "/inventory" ∷ "/users" ∷ []),
        record { rate = cfg.public.rate; window = window },
      )
        ∷ []
      else [])
    ++ (if cfg.auth_endpoints.enabled
        then (
          token_bucket rate window by_ip ("/auth/login" ∷ "/auth/refresh" ∷ []),
          record { rate = cfg.auth_endpoints.rate; window = window },
        )
          ∷ []
        else [])

-- The same tier with another rate and window.
abbrev pub with_rate : TierRateLimitConfig → ℤ → ℤ → TierRateLimitConfig
with_rate t rate window = record t { rate = rate; window = window }

-- The rates and windows configured for the public tier and for the authentication endpoints have
-- no effect: whatever they are, the same limits are set up.
pub setup_tiered_rate_limit-IgnoresRates :
    (cfg : RateLimitConfig) (r w r' w' : ℤ)
    → map
        (λ l. l.0)
        (setup_tiered_rate_limit (record cfg {
          public = with_rate cfg.public r w;
          auth_endpoints = with_rate cfg.auth_endpoints r' w';
        }))
      ≡ map (λ l. l.0) (setup_tiered_rate_limit cfg)
unfolding setup_tiered_rate_limit
setup_tiered_rate_limit-IgnoresRates cfg r w r' w' = elim (Bool-cases cfg.public.enabled) [
  | inl e ↦ elim (Bool-cases cfg.auth_endpoints.enabled) [
    | inl f ↦ rw (e, f) refl
    | inr f ↦ rw (e, f) refl
  ]
  | inr e ↦ elim (Bool-cases cfg.auth_endpoints.enabled) [
    | inl f ↦ rw (e, f) refl
    | inr f ↦ rw (e, f) refl
  ]
]

-- The log lines tell the truth about the tiers that are enabled.
abbrev pub IsHonest : List (LimitConfig × Logged) → Type 0
IsHonest = All (λ l. l.1.rate ≡ l.0.rate)

abbrev pub HasRate : TierRateLimitConfig → ℤ → Type 0
HasRate t rate = t.enabled ≡ true → t.rate ≡ rate

-- The log lines of the tiers name the rates that are enforced just if each enabled tier is
-- configured with the rate of the authenticated one.
pub setup_tiered_rate_limit-IsHonest :
    (cfg : RateLimitConfig)
    → IsHonest (setup_tiered_rate_limit cfg) ↔ (
        HasRate cfg.public cfg.authenticated.rate
        × HasRate cfg.auth_endpoints cfg.authenticated.rate)
unfolding setup_tiered_rate_limit
setup_tiered_rate_limit-IsHonest cfg = elim (Bool-cases cfg.public.enabled) [
  | inl e ↦ elim (Bool-cases cfg.auth_endpoints.enabled) [
    | inl f ↦ rw (e, f) ((λ h. ((λ _. h.0), (λ _. h.1.0))), (λ h. (h.0 refl, (h.1 refl, tt))))
    | inr f ↦ rw (e, f) ((λ h. ((λ _. h.0), (λ x. cc))), (λ h. (h.0 refl, tt)))
  ]
  | inr e ↦ elim (Bool-cases cfg.auth_endpoints.enabled) [
    | inl f ↦ rw (e, f) ((λ h. ((λ x. cc), (λ _. h.0))), (λ h. (h.1 refl, tt)))
    | inr f ↦ rw (e, f) ((λ h. ((λ x. cc), (λ x. cc))), (λ h. tt))
  ]
]
