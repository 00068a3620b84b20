-- ===== src/Tests/Stock.antt =====
-- The theorems on refused and on concurrent orders at concrete inputs.
use zerohttp_example.Base.{◌≡◌, String, refl, false, true, some, ok, List, [], ◌∷◌, arith, eq_iff}
use zerohttp_example.Base.Int.{pos, ◌+ℤ◌, ◌-ℤ◌, ◌≤ℤ◌}
use zerohttp_example.Http.{Request}
use zerohttp_example.Models.{Record, empty_address}
use zerohttp_example.Api.{CreateOrderRequest, OrderItemRequest}
use zerohttp_example.Store.{get_record, decrement_stock}
use zerohttp_example.Store.Spec.{Db, with_taken}
use zerohttp_example.Prog.Always.{Ensures}
use zerohttp_example.Handlers.Middleware.{get_user_id}
use zerohttp_example.Handlers.Order.{reserve, reserve_all, create_order}
use zerohttp_example.Handlers.Order.Leak.{LosesStock, create_order-LosesStock}
use zerohttp_example.Handlers.Order.Stock.{stock_of}
use zerohttp_example.Store.Keyed.{IsWellKeyed}
use zerohttp_example.Concurrent.{Pool, Runs, here, there, start, later, sold}
use zerohttp_example.Concurrent.Balance.{IsStocked}
use zerohttp_example.Concurrent.Oversell.{order_handlers, no_oversell}
use zerohttp_example.Tests.Fixtures.{platform, shop, shop-IsKeyed, request, blue}

abbrev one_blue : OrderItemRequest
one_blue = record { record_id = "blue"; quantity = pos 1 }

abbrev unknown : OrderItemRequest
unknown = record { record_id = "unknown"; quantity = pos 1 }

create_order-LosesStock_example :
    Ensures
      (create_order platform
        (request "alice" false "")
        (ok (record { items = one_blue ∷ unknown ∷ []; shipping_address = empty_address })))
      shop
      (LosesStock shop one_blue blue)
create_order-LosesStock_example =
    create_order-LosesStock platform (request "alice" false "") shop one_blue unknown []
      empty_address blue (λ e. ground (arith, eq_iff "alice" "")) refl refl (omega arith) refl

abbrev pub four_blue : CreateOrderRequest
four_blue = record {
  items = record { record_id = "blue"; quantity = pos 4 } ∷ [];
  shipping_address = empty_address;
}

-- Two callers ask for four of the five.
abbrev pub both : List (Request × CreateOrderRequest)
both = (request "alice" false "", four_blue) ∷ (request "bob" false "", four_blue) ∷ []

abbrev one_left : Db
one_left = with_taken shop "blue" blue (pos 4) 9

pub shop-IsStocked : IsStocked shop
shop-IsStocked id r h = ground (arith, eq_iff id "blue", eq_iff id "moon")

not_four : (r : Record) → one_left.records "blue" ≡ some r → ¬ (pos 4 ≤ℤ r.stock)
unfolding ◌-ℤ◌
not_four r h k = ground arith

-- Both look the record up, the second caller takes four, the first is refused.
first_come : (qs : Pool) × Runs shop (order_handlers platform both) one_left qs []
unfolding create_order reserve_all reserve get_user_id ◌-ℤ◌
first_come = (
  _,
  later
      (later
        (later (later start (here {c = get_record "blue"} (ok (some blue)) shop (refl, refl)))
          (there (here {c = get_record "blue"} (ok (some blue)) shop (refl, refl))))
        (there (
          here {c = decrement_stock "blue" (pos 4)} (ok true) one_left
            (blue, 9, refl, omega arith, refl))))
      (here {c = decrement_stock "blue" (pos 4)} (ok false) one_left (not_four, refl)),
)

no_oversell_example :
    ((j : String) → sold j [] +ℤ stock_of one_left j ≤ℤ stock_of shop j) × IsStocked one_left
no_oversell_example =
    no_oversell platform both shop (omega arith) shop-IsKeyed shop-IsStocked first_come.1

pub shop-IsWellKeyed : IsWellKeyed shop
shop-IsWellKeyed = record {
  users = λ k u h. ground (arith, eq_iff k "alice");
  records = shop-IsKeyed;
  orders = λ k o h. ground (arith, eq_iff k "o1");
}
