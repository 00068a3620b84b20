-- ===== src/Tests/Fixtures.antt =====
-- A small shop: two records, an order, a user, and the requests of the tests.
use zerohttp_example.Base.{
  ℕ, ◌+◌, ◌*◌, leb, ltb, ◌&&◌, String, Bool, true, false, ◌==◌, none, [], ◌∷◌, arith, eq_iff,
}
use zerohttp_example.Base.Int.{pos, pos_part}
use zerohttp_example.Http.{Request}
use zerohttp_example.Models.{
  BaseModel, User, Record, Order, OrderItem, empty_address, status_pending, role_user,
}
use zerohttp_example.Models.Platform.{Platform}
use zerohttp_example.Api.{CreateOrderRequest}
use zerohttp_example.Store.Spec.{Db, put}
use zerohttp_example.Handlers.Order.Stock.{IsKeyed}

-- Prices are whole cents here, and the first page has two items.
abbrev pub platform : Platform
platform = record {
  float_zero = 0;
  float_add = λ a b. a + b;
  float_mul = λ a b. a * b;
  float_of_int = pos_part;
  float_hundredths = λ n. n;
  float_eq = λ a b. leb a b && leb b a;
  float_gt = λ a b. ltb b a;
  rfc3339 = λ t. "then";
  base64_raw_url = λ bytes. "sid";
  verify_encoded = λ password hash. password == hash;
  defaults = λ p. p;
  offset = λ p. pos 0;
  limit_skip = λ p. (pos 2, pos 0);
}

abbrev pub base : String → BaseModel
base id = record { id = id; mongo_id = ""; created_at = 1; updated_at = 1 }

abbrev pub vinyl : String → ℕ → Record
vinyl id stock = record {
  base = base id;
  title = id;
  artist = "artist";
  year = pos 1959;
  label = "";
  catalog_number = "";
  format = "lp";
  genre = "jazz";
  condition = "nm";
  price = 25;
  stock = pos stock;
  description = "";
  archived = false;
}

abbrev pub blue : Record
blue = vinyl "blue" 5

abbrev pub moon : Record
moon = vinyl "moon" 3

abbrev pub alice : User
alice = record {
  base = base "alice";
  email = "alice@example.com";
  name = "Alice";
  password_hash = "secret";
  address = empty_address;
  active = true;
  role = role_user;
}

abbrev pub two_blue : OrderItem
two_blue = record {
  record_id = "blue";
  title = "blue";
  artist = "artist";
  price = 25;
  quantity = pos 2;
}

abbrev pub placed_order : Order
placed_order = record {
  base = base "o1";
  user_id = "alice";
  items = two_blue ∷ [];
  total = 50;
  status = status_pending;
  shipping_address = empty_address;
}

abbrev pub shop : Db
shop = record {
  users = put (λ _. none) "alice" alice;
  records = put (put (λ _. none) "moon" moon) "blue" blue;
  orders = put (λ _. none) "o1" placed_order;
}

pub shop-IsKeyed : IsKeyed shop
shop-IsKeyed id r h = ground (arith, eq_iff id "blue", eq_iff id "moon")

-- A request by `user`, with `id` in its path.
abbrev pub request : String → Bool → String → Request
request user admin id = record {
  claims = record { subject = user; has_scope = λ s. admin };
  path_value = λ k. id;
  param = λ k. id;
  has_body = true;
}

abbrev pub order_request : CreateOrderRequest
order_request = record {
  items =
      record { record_id = "blue"; quantity = pos 2 }
      ∷ record { record_id = "moon"; quantity = pos 1 }
      ∷ [];
  shipping_address = empty_address;
}
