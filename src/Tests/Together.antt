-- ===== src/Tests/Together.antt =====
-- The theorems on requests served at the same time at concrete inputs.
use zerohttp_example.Base.{
  ◌≢◌, ℕ, zero, suc, sym, String, Option, ◌≡◌, refl, inl, inr, some, none, some-injective,
  Bool-cases, ◌==◌, subst, true, Result, err, ok, List, [], ◌∷◌, arith, eq_iff, ap, false,
}
use zerohttp_example.Base.Int.{pos, add_int, wrap64, ◌-ℤ◌, ◌+ℤ◌}
use zerohttp_example.Http.{Request, no_content}
use zerohttp_example.Models.{Order, touch}
use zerohttp_example.Store.{get_record, get_order, save_record, save_order, now}
use zerohttp_example.Store.Spec.{Db, with_record, with_order}
use zerohttp_example.Prog.{ret}
use zerohttp_example.Handlers.Middleware.{require_admin, require_owner, get_user_id, get_role}
use zerohttp_example.Handlers.Order.{cancel_order, restore_stock, give_back, is_stranger}
use zerohttp_example.Handlers.Order.{create_order, reserve, reserve_all}
use zerohttp_example.Handlers.Order.Stock.{stock_of}
use zerohttp_example.Models.New.{new_order, new_base}
use zerohttp_example.Models.{User, Record, empty_address, deactivate}
use zerohttp_example.Api.{CreateOrderRequest}
use zerohttp_example.Http.{Outcome}
use zerohttp_example.Prog.{Flow}
use zerohttp_example.Prog.Sometimes.{Sometimes}
use zerohttp_example.Store.{get_user, save_user}
use zerohttp_example.Store.Spec.{with_taken, with_user}
use zerohttp_example.Handlers.User.{deactivate_user}
use zerohttp_example.Handlers.Order.Cancel.{cancelled}
use zerohttp_example.App.Routes.{Route, Binding, Zerohttp, post, patch, setup_routes}
use zerohttp_example.Concurrent.{Pool, Runs, here, there, start, later}
use zerohttp_example.Concurrent.Served.{Binds, IsPlain, served}
use zerohttp_example.Concurrent.Lifecycle.{Lives, Runs-Lives}
use zerohttp_example.Concurrent.Catalog.{
  IsCatalogued, AreCatalogued, IsValidPatch, valid_records, Runs-AreCatalogued,
}
use zerohttp_example.Models.Catalog.{genres}
use zerohttp_example.Handlers.Record.{update_record, apply_update}
use zerohttp_example.Handlers.Record.Patch.{no_fields}
use zerohttp_example.Api.{UpdateRecordRequest}
use zerohttp_example.Concurrent.Sound.{IsSound, AreSound, Runs-AreSound}
use zerohttp_example.Concurrent.Logins.{ComesFrom, Runs-ComesFrom}
use zerohttp_example.Concurrent.Turns.{ended, Sometimes-Runs}
use zerohttp_example.Handlers.Order.Reserve.{ArePositive}
use zerohttp_example.Tests.Fixtures.{
  platform, shop, placed_order, vinyl, blue, moon, alice, request,
}
use zerohttp_example.Tests.Application.{binding}
use zerohttp_example.Tests.Stock.{shop-IsWellKeyed}
use mathlib.Core.List.{Memᴰ}

abbrev pub nth {ℓ} : {A : Type ℓ} → ℕ → List A → Option A
nth n [] = none
nth zero (x ∷ xs) = some x
nth (suc n) (x ∷ xs) = nth n xs

pub nth-Mem {ℓ} : {A : Type ℓ} (n : ℕ) (xs : List A) (a : A) → nth n xs ≡ some a → Memᴰ a xs
nth-Mem n [] a h = absurd (cc h)
nth-Mem zero (x ∷ xs) a h = Memᴰ.head (sym (some-injective x a h))
nth-Mem (suc n) (x ∷ xs) a h = Memᴰ.tail (nth-Mem n xs a h)

-- Middleware that passes each request on.
abbrev pub open_zerohttp : Zerohttp
open_zerohttp = record {
  jwt = λ h. h;
  rate_limit = some (λ h. h);
  idempotency = λ h. h;
  welcome = λ r. ret no_content;
  refresh = λ r. ret no_content;
  logout = λ r. ret no_content;
}

pub open_zerohttp-IsPlain : IsPlain open_zerohttp
open_zerohttp-IsPlain = record {
  jwt = λ h r. inl refl;
  rate_limit = λ h r. inl refl;
  idempotency = λ h r. inl refl;
  welcome = λ r. tt;
  refresh = λ r. tt;
  logout = λ r. tt;
}

abbrev pub cancelling : Route × Request
cancelling = (post "/orders/{id}/cancel" cancel_order, request "alice" false "o1")

is_route : Memᴰ cancelling.0 (setup_routes platform open_zerohttp binding (pos 900))
unfolding setup_routes
is_route = nth-Mem 14 (setup_routes platform open_zerohttp binding (pos 900)) cancelling.0 refl

abbrev restocked : Db
restocked = with_record shop (record blue { base = touch blue.base 3; stock = pos 7 })

abbrev after : Db
after = with_order restocked (cancelled placed_order 4)

-- Both handlers read the order; then the first comes to its end.
both_read : (qs : Pool) × Runs shop (served (cancelling ∷ cancelling ∷ [])) shop qs []
unfolding cancel_order
both_read = (
  _,
  later (later start (here {c = get_order "o1"} (ok (some placed_order)) shop (refl, refl)))
      (there (here {c = get_order "o1"} (ok (some placed_order)) shop (refl, refl))),
)

one_done : (rs : Pool) × Runs shop both_read.0 after rs (cancelled placed_order 4 ∷ [])
unfolding both_read cancel_order restore_stock give_back is_stranger get_user_id get_role add_int
    wrap64 ◌+ℤ◌
one_done = (
  _,
  later
      (later
        (later
          (later (later start (here {c = get_record "blue"} (ok (some blue)) shop (refl, refl)))
            (here {c = now} 3 shop refl))
          (here {c = save_record (record blue { base = touch blue.base 3; stock = pos 7 })} (ok tt)
            restocked refl))
        (here {c = now} 4 restocked refl))
      (here {c = save_order (cancelled placed_order 4)} (ok tt) after refl),
)

Runs-Lives_example : Lives "o1" placed_order shop after
Runs-Lives_example =
    Runs-Lives platform open_zerohttp binding (pos 900) open_zerohttp-IsPlain
      (cancelling ∷ cancelling ∷ []) "o1" placed_order (is_route, (is_route, tt)) shop-IsWellKeyed
      refl both_read.1 one_done.1

abbrev pub two_more : CreateOrderRequest
two_more = record {
  items = record { record_id = "blue"; quantity = pos 2 } ∷ [];
  shipping_address = empty_address;
}

abbrev pub SellsTwo : Flow Outcome → Db → Type 0
SellsTwo v m = stock_of m "blue" ≡ pos 3

pub sale : Sometimes (create_order platform (request "bob" false "") (ok two_more)) shop SellsTwo
unfolding create_order reserve_all reserve get_user_id new_order new_base ◌-ℤ◌
sale = (
  ok (some blue),
  shop,
  (refl, refl),
  (
    ok true,
    with_taken shop "blue" blue (pos 2) 9,
    (blue, 9, refl, omega arith, refl),
    (
      "o2",
      _,
      (refl, refl, refl, refl, λ e. ground (arith, eq_iff "o2" "")),
      (9, _, refl, (9, _, refl, (ok tt, _, refl, refl))),
    ),
  ),
)

shop-AreSound : AreSound shop
shop-AreSound k o h = elim (Bool-cases (k == "o1")) [
  | inl e ↦
      subst IsSound (some-injective placed_order o (rw e at h))
        ((λ e. ground (arith, eq_iff "alice" "")), (omega arith, tt), inl refl)
  | inr e ↦ absurd (cc (rw e at h))
]

-- Each request for an order asks for two copies.
abbrev pub selling : Binding
selling = record binding { create_order_request = λ r. ok two_more }

abbrev pub ordering : Route × Request
ordering = (post "/orders" (λ r. create_order platform r (ok two_more)), request "bob" false "")

abbrev sale_run :
    (v : Flow Outcome) × (e : Db) × (log : List Order) × SellsTwo v e
    × Runs shop (served (ordering ∷ [])) e (ended v ∷ []) log
sale_run =
    Sometimes-Runs (λ p. p ∷ []) (λ c k a d e s. here a e s)
      (create_order platform (request "bob" false "") (ok two_more)) shop SellsTwo start sale

orders_route : Memᴰ ordering.0 (setup_routes platform open_zerohttp selling (pos 900))
unfolding setup_routes
orders_route = nth-Mem 11 (setup_routes platform open_zerohttp selling (pos 900)) ordering.0 refl

abbrev pub or_two : Result CreateOrderRequest → CreateOrderRequest
or_two (ok req) = req
or_two (err e) = two_more

two_more-ArePositive :
    (r : Request) (req : CreateOrderRequest) → ok two_more ≡ ok req → ArePositive req.items
two_more-ArePositive r req e = subst (λ q. ArePositive q.items) (ap (λ x. or_two x) e) (omega arith)

Runs-AreSound_example : AreSound sale_run.1
Runs-AreSound_example =
    Runs-AreSound platform open_zerohttp selling (pos 900) open_zerohttp-IsPlain (ordering ∷ [])
      two_more-ArePositive (orders_route, tt) shop-AreSound sale_run.4

abbrev pub deactivating : Route × Request
deactivating =
    (post "/users/{id}/deactivate" (require_owner deactivate_user), request "alice" false "alice")

deactivate_route : Memᴰ deactivating.0 (setup_routes platform open_zerohttp binding (pos 900))
unfolding setup_routes
deactivate_route =
    nth-Mem 10 (setup_routes platform open_zerohttp binding (pos 900)) deactivating.0 refl

abbrev gone : User
gone = record alice { base = touch alice.base 7; active = false }

deactivated : (qs : Pool) × Runs shop (served (deactivating ∷ [])) (with_user shop gone) qs []
unfolding require_owner deactivate_user deactivate
deactivated = (
  _,
  later
      (later (later start (here {c = get_user "alice"} (ok (some alice)) shop (refl, refl)))
        (here {c = now} 7 shop refl))
      (here {c = save_user gone} (ok tt) (with_user shop gone) refl),
)

Runs-ComesFrom_example : (gone.id ≡ "alice") × ComesFrom shop gone
Runs-ComesFrom_example =
    Runs-ComesFrom platform open_zerohttp binding (pos 900) open_zerohttp-IsPlain
      (deactivating ∷ []) (deactivate_route, tt) shop-IsWellKeyed deactivated.1 "alice" gone refl

-- An admin puts the genre of a record right.
abbrev funk : UpdateRecordRequest
funk = record (no_fields platform) { genre = "funk" }

abbrev patching : Binding
patching = record binding { update_record_request = λ r. ok funk }

abbrev or_funk : Result UpdateRecordRequest → UpdateRecordRequest
or_funk (ok req) = req
or_funk (err e) = funk

is_funk : Memᴰ "funk" genres
is_funk = nth-Mem 6 genres "funk" refl

vinyl-IsCatalogued : (id : String) (n : ℕ) → id ≢ "" → IsCatalogued (vinyl id n)
vinyl-IsCatalogued id n named = (
  named,
  (λ e. ground (arith, eq_iff "artist" "")),
  omega arith,
  Memᴰ.head refl,
  Memᴰ.head refl,
  Memᴰ.tail (Memᴰ.tail (Memᴰ.head refl)),
)

patching-Binds : Binds patching valid_records
patching-Binds = record {
  items = λ r req e. tt;
  new_record = λ r req e. absurd (cc e);
  patch = λ r req e.
      subst IsValidPatch (ap (λ x. or_funk x) e) (inl refl, inl refl, inr is_funk, inl refl);
}

abbrev correcting : Route × Request
correcting = (
  patch "/records/{id}" (require_admin (λ r. update_record platform r (ok funk))),
  request "root" true "blue",
)

patch_route : Memᴰ correcting.0 (setup_routes platform open_zerohttp patching (pos 900))
unfolding setup_routes
patch_route = nth-Mem 17 (setup_routes platform open_zerohttp patching (pos 900)) correcting.0 refl

abbrev corrected : Record
corrected = record blue { base = touch blue.base 5; genre = "funk"; stock = pos 0 }

correction : (qs : Pool) × Runs shop (served (correcting ∷ [])) (with_record shop corrected) qs []
unfolding require_admin update_record apply_update
correction = (
  _,
  later
      (later (later start (here {c = get_record "blue"} (ok (some blue)) shop (refl, refl)))
        (here {c = now} 5 shop refl))
      (here {c = save_record corrected} (ok tt) (with_record shop corrected) refl),
)

shop-AreCatalogued : AreCatalogued shop
shop-AreCatalogued k x h = elim (Bool-cases (k == "blue")) [
  | inl e ↦
      subst IsCatalogued (some-injective blue x (rw e at h))
        (vinyl-IsCatalogued "blue" 5 (λ e. ground (arith, eq_iff "blue" "")))
  | inr e ↦ elim (Bool-cases (k == "moon")) [
    | inl m ↦
        subst IsCatalogued (some-injective moon x (rw (e, m) at h))
          (vinyl-IsCatalogued "moon" 3 (λ e. ground (arith, eq_iff "moon" "")))
    | inr m ↦ absurd (cc (rw (e, m) at h))
  ]
]

Runs-AreCatalogued_example : AreCatalogued (with_record shop corrected)
Runs-AreCatalogued_example =
    Runs-AreCatalogued platform open_zerohttp patching (pos 900) open_zerohttp-IsPlain
      (correcting ∷ []) patching-Binds (patch_route, tt) shop-AreCatalogued correction.1
