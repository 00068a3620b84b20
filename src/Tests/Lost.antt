-- ===== src/Tests/Lost.antt =====
-- The theorems on writes that are lost at concrete inputs.
use zerohttp_example.Base.{refl, inr, none, true, ok, arith, eq_iff, false}
use zerohttp_example.Base.Int.{pos, ◌+ℤ◌}
use zerohttp_example.Handlers.Order.{create_order}
use zerohttp_example.Concurrent.Stale.{
  CanOverwrite, restock_record-CanOverwrite, CanReactivate, update_user-CanReactivate,
}
use zerohttp_example.Concurrent.Twice.{FitsTwice, CanGiveTwice, cancel_order-CanGiveTwice}
use zerohttp_example.Tests.Fixtures.{platform, shop, placed_order, blue, alice, request}
use zerohttp_example.Tests.Stock.{shop-IsWellKeyed}
use zerohttp_example.Tests.Together.{two_more, SellsTwo, sale}

shop-FitsTwice : FitsTwice shop placed_order
unfolding ◌+ℤ◌
shop-FitsTwice j r h = ground (arith, eq_iff j "blue", eq_iff j "moon")

-- The customer cancels the order twice at once.
cancel_order-CanGiveTwice_example :
    CanGiveTwice (request "alice" false "o1") (request "alice" false "o1") shop placed_order
cancel_order-CanGiveTwice_example =
    cancel_order-CanGiveTwice placed_order shop shop-IsWellKeyed (omega arith) shop-FitsTwice
      (request "alice" false "o1") (request "alice" false "o1")
      (λ e. ground (arith, eq_iff "o1" "")) (λ e. ground (arith, eq_iff "o1" "")) refl refl
      (inr refl) (inr refl) refl

update_user-CanReactivate_example :
    CanReactivate platform
      (request "alice" false "alice")
      (record { name = "Al"; address = none })
      (request "alice" false "alice")
      shop
      alice
update_user-CanReactivate_example =
    update_user-CanReactivate platform (request "alice" false "alice")
      (request "alice" false "alice") (record { name = "Al"; address = none }) shop alice
      (λ e. ground (arith, eq_iff "alice" "")) (λ e. ground (arith, eq_iff "alice" "")) refl refl
      refl

-- Two copies are sold while five come in: the shelf count says ten.
restock_record-CanOverwrite_example :
    CanOverwrite platform
      (request "root" true "blue")
      (record { quantity = pos 5 })
      (create_order platform (request "bob" false "") (ok two_more))
      SellsTwo
      shop
      blue
restock_record-CanOverwrite_example =
    restock_record-CanOverwrite platform (request "root" true "blue") (record { quantity = pos 5 })
      shop blue (create_order platform (request "bob" false "") (ok two_more)) SellsTwo
      (λ e. ground (arith, eq_iff "blue" "")) refl refl sale
