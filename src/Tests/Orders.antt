-- ===== src/Tests/Orders.antt =====
-- The theorems on orders at concrete inputs.
use zerohttp_example.Base.{◌≡◌, refl, subst, false, arith, eq_iff, ok, some-injective}
use zerohttp_example.Base.Int.{pos, ◌+ℤ◌}
use zerohttp_example.Handlers.Order.Restore.{Fits, AreCounts}
use zerohttp_example.Prog.Always.{Ensures}
use zerohttp_example.Handlers.Order.{get_order, list_orders, create_order, cancel_order}
use zerohttp_example.Handlers.Order.Access.{Shows, ListsOwn, get_order-Shows, list_orders-ListsOwn}
use zerohttp_example.Handlers.Order.Create.{Creates, create_order-Creates}
use zerohttp_example.Handlers.Order.Fulfil.{CanServe, Places, create_order-Places}
use zerohttp_example.Prog.Succeeds.{Succeeds}
use zerohttp_example.Prog.Always.{outcome}
use zerohttp_example.Handlers.Order.Undo.{Undoable, create_order-cancel_order}
use zerohttp_example.Tests.Stock.{shop-IsStocked}
use zerohttp_example.Handlers.Order.Cancel.{Cancels, cancel_order-Cancels}
use zerohttp_example.Tests.Fixtures.{
  platform, shop, shop-IsKeyed, blue, moon, request, order_request, placed_order,
}

get_order-Shows_example :
    Ensures
      (get_order platform (request "bob" false "o1"))
      shop
      λ o e. (e ≡ shop) × Shows platform (request "bob" false "o1") shop o
get_order-Shows_example = get_order-Shows platform (request "bob" false "o1") shop

list_orders-ListsOwn_example :
    Ensures
      (list_orders platform
        (request "bob" false "")
        (ok (record { page = pos 1; per_page = pos 20; user_id = "alice"; status = "" })))
      shop
      λ o e. (e ≡ shop) × ListsOwn (request "bob" false "") o
list_orders-ListsOwn_example = list_orders-ListsOwn platform (request "bob" false "") _ shop refl

create_order-Creates_example :
    Ensures
      (create_order platform (request "alice" false "") (ok order_request))
      shop
      (Creates platform (request "alice" false "") order_request shop)
create_order-Creates_example =
    create_order-Creates platform (request "alice" false "") order_request shop (omega arith)
      shop-IsKeyed

shop-Fits : Fits shop placed_order.items
unfolding ◌+ℤ◌
shop-Fits j r h = ground (arith, eq_iff j "blue", eq_iff j "moon")

cancel_order-Cancels_example :
    Ensures
      (cancel_order (request "alice" false "o1"))
      shop
      (Cancels (request "alice" false "o1") shop)
cancel_order-Cancels_example =
    cancel_order-Cancels (request "alice" false "o1") shop shop-IsKeyed λ x h.
      subst (λ y. Fits shop y.items × AreCounts y.items) (some-injective placed_order x h)
        (shop-Fits, omega arith)

order_request-CanServe : CanServe order_request.items shop
unfolding ◌+ℤ◌
order_request-CanServe = (
  ((blue, refl, refl), ((moon, refl, refl), tt)),
  λ j. ground (arith, eq_iff j "blue", eq_iff j "moon"),
)

create_order-Places_example :
    Succeeds
      (create_order platform (request "alice" false "") (ok order_request))
      shop
      (λ f e. Places platform (request "alice" false "") order_request shop (outcome f) e)
create_order-Places_example =
    create_order-Places platform (request "alice" false "") order_request shop
      (λ e. ground (arith, eq_iff "alice" "")) (omega arith) shop-IsKeyed order_request-CanServe

create_order-cancel_order_example :
    Ensures
      (create_order platform (request "alice" false "") (ok order_request))
      shop
      (Undoable platform (request "alice" false "") shop)
create_order-cancel_order_example =
    create_order-cancel_order platform (request "alice" false "") order_request shop (omega arith)
      shop-IsKeyed shop-IsStocked λ j. ground (arith, eq_iff j "blue", eq_iff j "moon")
