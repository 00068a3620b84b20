-- ===== src/Tests/Application.antt =====
-- The theorems on the application at concrete inputs.
use zerohttp_example.Base.{some, ◌↔◌, ◌≡◌, refl, inl, inr, true, false, if◌then◌else◌, All}
use zerohttp_example.Base.{err}
use zerohttp_example.Base.Int.{pos}
use zerohttp_example.Http.{problem, no_content}
use zerohttp_example.Prog.{ret, stop}
use zerohttp_example.App.Limits.{
  RateLimitConfig, setup_tiered_rate_limit, IsHonest, HasRate, setup_tiered_rate_limit-IsHonest,
}
use zerohttp_example.App.Routes.{Binding, Zerohttp, setup_routes}
use zerohttp_example.App.Routes.Guards.{needs_admin, Refuses, setup_routes-Refuses}
use zerohttp_example.Tests.Fixtures.{platform, shop, request}

-- The defaults of the configuration: 30, 100 and 5 requests a minute.
abbrev limits : RateLimitConfig
limits = record {
  enabled = true;
  public = record { enabled = true; rate = pos 30; window = pos 60 };
  authenticated = record { enabled = true; rate = pos 100; window = pos 60 };
  auth_endpoints = record { enabled = true; rate = pos 5; window = pos 60 };
}

setup_tiered_rate_limit-IsHonest_example :
    IsHonest (setup_tiered_rate_limit limits)
    ↔ (HasRate limits.public (pos 100) × HasRate limits.auth_endpoints (pos 100))
setup_tiered_rate_limit-IsHonest_example = setup_tiered_rate_limit-IsHonest limits

-- A token check that wants the scope "user", and handlers that do nothing.
abbrev zerohttp : Zerohttp
zerohttp = record {
  jwt = λ h r. if r.claims.has_scope "user" then h r else stop (problem 401 "unauthorized");
  rate_limit = some (λ h. h);
  idempotency = λ h. h;
  welcome = λ r. ret no_content;
  refresh = λ r. ret no_content;
  logout = λ r. ret no_content;
}

-- No request binds.
abbrev pub binding : Binding
binding = record {
  login_request = λ r. err "EOF";
  create_user_request = λ r. err "EOF";
  update_user_request = λ r. err "EOF";
  create_record_request = λ r. err "EOF";
  update_record_request = λ r. err "EOF";
  list_records_request = λ r. err "EOF";
  create_order_request = λ r. err "EOF";
  list_orders_request = λ r. err "EOF";
  list_inventory_request = λ r. err "EOF";
  restock_request = λ r. err "EOF";
}

setup_routes-Refuses_example :
    All
      (λ t. needs_admin t.method t.pattern ≡ true → Refuses shop (request "bob" false "blue") t)
      (setup_routes platform zerohttp binding (pos 900))
setup_routes-Refuses_example =
    setup_routes-Refuses platform zerohttp binding (pos 900) (request "bob" false "blue") shop
      (λ h. inr (401, "unauthorized", refl)) (λ h. inl refl) refl
