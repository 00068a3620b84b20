-- ===== src/Tests/Accounts.antt =====
-- The theorems on accounts at concrete inputs.
use zerohttp_example.Base.{◌≡◌, false, none, ok, arith, eq_iff}
use zerohttp_example.Base.Int.{pos}
use zerohttp_example.Api.{LoginRequest, CreateUserRequest, UpdateUserRequest}
use zerohttp_example.Prog.Always.{Ensures}
use zerohttp_example.Handlers.Auth.{login}
use zerohttp_example.Handlers.Auth.Grant.{Grants, login-Grants}
use zerohttp_example.Handlers.User.{create_user, deactivate_user}
use zerohttp_example.Handlers.User.Signup.{SignsUp, create_user-SignsUp}
use zerohttp_example.Handlers.User.Owner.{AreKeyed}
use zerohttp_example.Handlers.User.Deactivate.{AreDistinct, Shuts, deactivate_user-Shuts}
use zerohttp_example.Tests.Fixtures.{platform, shop, request}

abbrev credentials : LoginRequest
credentials = record { email = "alice@example.com"; password = "secret" }

abbrev signup : CreateUserRequest
signup = record { email = "bob@example.com"; name = "Bob"; password = "hunter22"; address = none }

abbrev pub rename : UpdateUserRequest
rename = record { name = "Alicia"; address = none }

pub shop-AreKeyed : AreKeyed shop
shop-AreKeyed id u h = ground (arith, eq_iff id "alice")

shop-AreDistinct : AreDistinct shop
shop-AreDistinct i j u v h k e = ground (arith, eq_iff i "alice", eq_iff j "alice")

login-Grants_example :
    Ensures
      (login platform (pos 900) (ok credentials))
      shop
      λ o e. (e ≡ shop) × Grants platform credentials shop o
login-Grants_example = login-Grants platform (pos 900) credentials shop

create_user-SignsUp_example :
    Ensures (create_user platform (ok signup)) shop (SignsUp platform signup shop)
create_user-SignsUp_example = create_user-SignsUp platform signup shop

deactivate_user-Shuts_example :
    Ensures
      (deactivate_user (request "alice" false "alice"))
      shop
      (Shuts platform (pos 900) (request "alice" false "alice") shop)
deactivate_user-Shuts_example =
    deactivate_user-Shuts (request "alice" false "alice") shop shop-AreKeyed shop-AreDistinct
      platform (pos 900)
