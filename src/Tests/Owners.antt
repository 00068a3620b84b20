-- ===== src/Tests/Owners.antt =====
-- The routes of an account at concrete inputs.
use zerohttp_example.Base.{◌≡◌, refl, inl, true, false, All, ok}
use zerohttp_example.Base.Int.{pos}
use zerohttp_example.Http.{Request}
use zerohttp_example.Prog.Always.{Ensures}
use zerohttp_example.Handlers.User.View.{ShowsAccount}
use zerohttp_example.Handlers.User.Owner.{ChangesOnly}
use zerohttp_example.App.Routes.{Binding, setup_routes}
use zerohttp_example.App.Routes.Owners.{is_route, setup_routes-ShowsOwn, setup_routes-ChangesOwn}
use zerohttp_example.Tests.Fixtures.{platform, shop, request}
use zerohttp_example.Tests.Accounts.{rename, shop-AreKeyed}
use zerohttp_example.Tests.Application.{binding}
use zerohttp_example.Tests.Together.{open_zerohttp}

-- Alice asks for her account and for a new name.
abbrev alices : Request
alices = request "alice" false "alice"

abbrev renaming : Binding
renaming = record binding { update_user_request = λ r. ok rename }

setup_routes-ShowsOwn_example :
    All
      (λ t.
        is_route "GET" "/users/{id}" t ≡ true
        → Ensures (t.handler alices) shop λ o e. (e ≡ shop) × ShowsAccount platform "alice" shop o)
      (setup_routes platform open_zerohttp renaming (pos 900))
setup_routes-ShowsOwn_example =
    setup_routes-ShowsOwn platform open_zerohttp renaming (pos 900) alices shop (λ h. inl refl)
      (λ h. inl refl) refl refl

setup_routes-ChangesOwn_example :
    All
      (λ t.
        is_route "PATCH" "/users/{id}" t ≡ true
        → Ensures (t.handler alices) shop λ o e. ChangesOnly "alice" shop e)
      (setup_routes platform open_zerohttp renaming (pos 900))
    × All
        (λ t.
          is_route "POST" "/users/{id}/deactivate" t ≡ true
          → Ensures (t.handler alices) shop λ o e. ChangesOnly "alice" shop e)
        (setup_routes platform open_zerohttp renaming (pos 900))
setup_routes-ChangesOwn_example =
    setup_routes-ChangesOwn platform open_zerohttp renaming (pos 900) alices shop (λ h. inl refl)
      (λ h. inl refl) refl refl shop-AreKeyed
