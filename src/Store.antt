-- ===== src/Store.antt =====
-- The storage interface (store/store.go) and the other calls that a handler makes to its
-- environment, as one type of calls. `Reply c` is what call `c` gives back: a method that
-- returns `(T, bool, error)` replies with a `Result (Option T)`.
pub mod Spec
pub mod Rules
pub mod Keyed
use zerohttp_example.Base.{ℕ, String, Bool, Option, List, Result}
use zerohttp_example.Base.Int.{ℤ}
use zerohttp_example.Models.{User, Record, Order, Float64, Time}

pub record BaseFilter : Type 0 where
  pub page : ℤ
  pub per_page : ℤ

pub record RecordFilter : Type 0 where
  pub base : BaseFilter
  pub open base use *
  pub genres : List String
  pub decade : ℤ
  pub conditions : List String
  pub formats : List String
  pub artist : String
  pub min_price : Float64
  pub max_price : Float64
  pub in_stock : Bool
  pub sort : String

pub record OrderFilter : Type 0 where
  pub base : BaseFilter
  pub open base use *
  pub user_id : String
  pub status : String

pub record UserFilter : Type 0 where
  pub base : BaseFilter
  pub open base use *

pub record AllOrdersFilter : Type 0 where
  pub base : BaseFilter
  pub open base use *

-- The claims that `Login` puts into a token; `kind` is the claim "type", which only a refresh
-- token has.
pub record TokenClaims : Type 0 where
  pub sub : String
  pub scope : String
  pub jti : String
  pub sid : String
  pub kind : Option String

-- The methods of `UserStore`, `RecordStore` and `OrderStore`; then the clock, `xid.New`,
-- random bytes, argon2's `HashEncoded`, and the token generators of jwtauth.
pub data Call : Type 0 where
  get_user : String → Call
  save_user : User → Call
  get_user_by_email : String → Call
  get_all_users : UserFilter → Call
  get_record : String → Call
  save_record : Record → Call
  get_all_records : Call
  get_filtered_records : RecordFilter → Call
  decrement_stock : String → ℤ → Call
  get_order : String → Call
  save_order : Order → Call
  get_orders_by_user : OrderFilter → Call
  get_all_orders : AllOrdersFilter → Call
  now : Call
  new_xid : Call
  read_random : ℕ → Call
  hash_encoded : String → Call
  generate_access_token : TokenClaims → Call
  generate_refresh_token : TokenClaims → Call

abbrev pub Reply : Call → Type 0
Reply (get_user _) = Result (Option User)
Reply (save_user _) = Result (Unit {0})
Reply (get_user_by_email _) = Result (Option User)
Reply (get_all_users _) = Result (List User × ℤ)
Reply (get_record _) = Result (Option Record)
Reply (save_record _) = Result (Unit {0})
Reply get_all_records = Result (List Record)
Reply (get_filtered_records _) = Result (List Record × ℤ)
Reply (decrement_stock _ _) = Result Bool
Reply (get_order _) = Result (Option Order)
Reply (save_order _) = Result (Unit {0})
Reply (get_orders_by_user _) = Result (List Order × ℤ)
Reply (get_all_orders _) = Result (List Order × ℤ)
Reply now = Time
Reply new_xid = String
Reply (read_random _) = Result (List ℕ)
Reply (hash_encoded _) = Result String
Reply (generate_access_token _) = Result String
Reply (generate_refresh_token _) = Result String
