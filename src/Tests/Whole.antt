-- ===== src/Tests/Whole.antt =====
-- The application over `MongoStore` at concrete inputs.
use zerohttp_example.Base.{
  ℕ, String, ◌≡◌, refl, subst, ap, List, [], ◌∷◌, Option, none, some, arith, if◌then◌else◌,
}
use zerohttp_example.Base.Int.{pos, add_int, wrap64, ◌-ℤ◌, ◌+ℤ◌}
use zerohttp_example.Http.{Request}
use zerohttp_example.Models.{User, Order, status_cancelled, deactivate}
use zerohttp_example.Models.New.{new_order, new_base}
use zerohttp_example.Handlers.Middleware.{require_owner, get_user_id, get_role}
use zerohttp_example.Handlers.User.{deactivate_user}
use zerohttp_example.Handlers.Order.{
  cancel_order, restore_stock, give_back, is_stranger, create_order, reserve, reserve_all,
}
use zerohttp_example.Handlers.Order.Stock.{stock_of}
use zerohttp_example.Handlers.Order.Reserve.{ArePositive}
use zerohttp_example.App.Routes.{Route, setup_routes}
use zerohttp_example.Concurrent.Served.{Binds, served}
use zerohttp_example.Concurrent.Schedule.{Moment, turns}
use zerohttp_example.Concurrent.Lifecycle.{Lives}
use zerohttp_example.Concurrent.Logins.{ComesFrom}
use zerohttp_example.Mongo
use zerohttp_example.Mongo.Serve.{serve, AreInts}
use zerohttp_example.Mongo.Serve.Whole.{counted_orders, turns-Lives}
use zerohttp_example.Tests.Fixtures.{platform, shop}
use zerohttp_example.Tests.Stock.{shop-IsWellKeyed}
use zerohttp_example.Tests.Mongo.{update_one-Updates}
use zerohttp_example.Tests.Together.{
  nth, nth-Mem, open_zerohttp, open_zerohttp-IsPlain, cancelling, selling, ordering, deactivating,
  or_two,
}
use zerohttp_example.Tests.World.{
  World, world_server, fresh_id, outside, outside-Complements, users-Serve, records-Serve,
  orders-Serve, open_shop,
}
use mathlib.Core.List.{Memᴰ}

selling-Binds : Binds selling counted_orders
selling-Binds = record {
  items = λ r req e.
      subst (λ q. ArePositive q.items × AreInts q.items) (ap (λ x. or_two x) e)
        (omega arith, omega arith);
  new_record = λ r req e. tt;
  patch = λ r req e. tt;
}

route_at :
    (n : ℕ) (q : Route × Request)
    → nth n (setup_routes platform open_zerohttp selling (pos 900)) ≡ some q.0
    → Memᴰ q.0 (setup_routes platform open_zerohttp selling (pos 900))
route_at n q h = nth-Mem n (setup_routes platform open_zerohttp selling (pos 900)) q.0 h

-- Alice cancels her order and deactivates her account while Bob orders.
abbrev busy : List (Route × Request)
busy = cancelling ∷ deactivating ∷ ordering ∷ []

abbrev morning : Moment World
morning = turns (serve world_server platform outside) (2 ∷ 0 ∷ 1 ∷ 0 ∷ []) (served busy) open_shop

abbrev noon : Moment World
noon =
    turns (serve world_server platform outside) (2 ∷ 2 ∷ 2 ∷ 2 ∷ 2 ∷ 1 ∷ 1 ∷ 0 ∷ 0 ∷ 0 ∷ 0 ∷ [])
      morning.pool morning.world

turns-Lives_example :
    ((j : String) (x : Order) → shop.orders j ≡ some x → Lives j x morning.world.db noon.world.db)
    × ((j : String) (u : User) → morning.world.db.users j ≡ some u → (u.id ≡ j) × ComesFrom shop u)
unfolding setup_routes
turns-Lives_example =
    turns-Lives world_server platform (λ w. w.db) outside users-Serve records-Serve orders-Serve
      (λ q u w. update_one-Updates q u w.db) outside-Complements open_zerohttp selling (pos 900)
      open_zerohttp-IsPlain selling-Binds busy (2 ∷ 0 ∷ 1 ∷ 0 ∷ [])
      (2 ∷ 2 ∷ 2 ∷ 2 ∷ 2 ∷ 1 ∷ 1 ∷ 0 ∷ 0 ∷ 0 ∷ 0 ∷ []) open_shop
      (
        route_at 14 cancelling refl,
        (route_at 10 deactivating refl, (route_at 11 ordering refl, tt)),
      )
      shop-IsWellKeyed

abbrev status_of : Option Order → String
status_of none = ""
status_of (some o) = o.status

abbrev is_gone : Option User → String
is_gone none = ""
is_gone (some u) = if u.active then "active" else "gone"

noon_shop :
    (status_of (noon.world.db.orders "o1") ≡ status_cancelled)
    × (is_gone (noon.world.db.users "alice") ≡ "gone")
    × (stock_of noon.world.db "blue" ≡ pos 5)
unfolding cancel_order restore_stock give_back is_stranger get_user_id get_role require_owner
    deactivate_user deactivate create_order reserve_all reserve new_order new_base Mongo.get_record
    Mongo.get_order Mongo.get_user Mongo.save_user Mongo.save_record Mongo.decrement_stock
    Mongo.save_order fresh_id add_int wrap64 ◌+ℤ◌ ◌-ℤ◌
noon_shop = (refl, refl, refl)
