-- ===== src/Tests/Serve.antt =====
-- Orders placed over `MongoStore` at concrete inputs.
use zerohttp_example.Base.{ℕ, String, ◌≡◌, refl, false, ok, arith}
use zerohttp_example.Base.Int.{pos}
use zerohttp_example.Prog.Always.{outcome}
use zerohttp_example.Prog.Run.{run}
use zerohttp_example.Handlers.Order.{create_order, reserve, reserve_all}
use zerohttp_example.Handlers.Middleware.{get_user_id}
use zerohttp_example.Models.New.{new_order, new_base}
use zerohttp_example.Handlers.Order.Create.{Creates}
use zerohttp_example.Mongo.{Single, decoded, no_documents, failed, Update, Collection, MongoStore}
use zerohttp_example.Mongo.Serve.{serve, run-create_order-Creates, turns-no_oversell}
use zerohttp_example.Base.{List, [], ◌∷◌}
use zerohttp_example.Base.Int.{◌+ℤ◌, ◌-ℤ◌, ◌≤ℤ◌, wrap64}
use zerohttp_example.Mongo
use zerohttp_example.Handlers.Order.Stock.{stock_of}
use zerohttp_example.Concurrent.{sold}
use zerohttp_example.Concurrent.Balance.{IsStocked}
use zerohttp_example.Concurrent.Oversell.{order_handlers}
use zerohttp_example.Concurrent.Schedule.{Moment, turns}
use zerohttp_example.Tests.Fixtures.{platform, shop, request, order_request}
use zerohttp_example.Tests.Stock.{shop-IsWellKeyed, shop-IsStocked, both}
use zerohttp_example.Tests.Mongo.{update_one-Updates}
use zerohttp_example.Tests.World.{
  World, world_server, outside, outside-Complements, users-Serve, records-Serve, orders-Serve,
  open_shop,
}

run-create_order-Creates_example :
    let done =
      run
        (serve world_server platform outside)
        (create_order platform (request "alice" false "") (ok order_request))
        open_shop in
    Creates platform (request "alice" false "") order_request shop (outcome done.0) done.1.db
run-create_order-Creates_example =
    run-create_order-Creates world_server platform (λ w. w.db) outside users-Serve records-Serve
      orders-Serve (λ q u w. update_one-Updates q u w.db) outside-Complements
      (request "alice" false "") order_request open_shop (omega arith) (omega arith)
      shop-IsWellKeyed

-- The handlers of two callers who ask for four of the five, in turns; the last turn is the first.
abbrev in_turns : List ℕ
in_turns = 0 ∷ 0 ∷ 0 ∷ 0 ∷ 1 ∷ 0 ∷ 1 ∷ 0 ∷ []

abbrev evening : Moment World
evening =
    turns (serve world_server platform outside) in_turns (order_handlers platform both) open_shop

turns-no_oversell_example :
    ((j : String) → sold j evening.log +ℤ stock_of evening.world.db j ≤ℤ stock_of shop j)
    × IsStocked evening.world.db
turns-no_oversell_example =
    turns-no_oversell world_server platform (λ w. w.db) outside users-Serve records-Serve
      orders-Serve (λ q u w. update_one-Updates q u w.db) outside-Complements both in_turns
      open_shop (omega arith) (omega arith) shop-IsWellKeyed shop-IsStocked

-- One of the two has been served.
evening_sale : (sold "blue" evening.log ≡ pos 4) × (stock_of evening.world.db "blue" ≡ pos 1)
unfolding create_order reserve_all reserve get_user_id new_order new_base Mongo.get_record
    Mongo.decrement_stock Mongo.save_order ◌+ℤ◌ ◌-ℤ◌ wrap64
evening_sale = (refl, refl)
