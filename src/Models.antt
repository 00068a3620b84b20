-- ===== src/Models.antt =====
-- The domain models of the store (models/user.go, models/address.go, models/base.go,
-- models/order.go, models/record.go): their types and their pure methods. The constructors
-- that read the clock and make ids are in Models/New.antt.
--
-- A `float64` is its bit pattern and a `time.Time` an instant, both numbers that the models
-- only carry; what is computed with them goes through a `Platform`. Go's string types with
-- constants (`Role`, `OrderStatus`, ...) stay strings, since a request can hold any string.
pub mod Platform
pub mod Catalog
pub mod New
use zerohttp_example.Base.{
  ℕ, String, ◌≡◌, Bool, true, false, if◌then◌else◌, List, [], ◌∷◌, ◌==◌, ◌&&◌,
}
use zerohttp_example.Base.Int.{ℤ}

abbrev pub Time : Type 0
Time = ℕ

abbrev pub Float64 : Type 0
Float64 = ℕ

pub record Address : Type 0 where
  pub street : String
  pub city : String
  pub state : String
  pub zip_code : String
  pub country : String

-- The zero value `Address{}`.
abbrev pub empty_address : Address
empty_address = record { street = ""; city = ""; state = ""; zip_code = ""; country = "" }

-- Go's `a == b` on two addresses.
abbrev pub address_eq : Address → Address → Bool
address_eq a b =
    a.street == b.street
    && (a.city == b.city
        && (a.state == b.state && (a.zip_code == b.zip_code && a.country == b.country)))

pub record BaseModel : Type 0 where
  pub id : String
  pub mongo_id : String
  pub created_at : Time
  pub updated_at : Time

abbrev pub role_user : String
role_user = "user"

abbrev pub role_admin : String
role_admin = "admin"

pub record User : Type 0 where
  pub base : BaseModel
  pub open base use *
  pub email : String
  pub name : String
  pub password_hash : String
  pub address : Address
  pub active : Bool
  pub role : String

pub record UserParams : Type 0 where
  pub email : String
  pub name : String
  pub password : String
  pub role : String
  pub address : Address

abbrev pub status_pending : String
status_pending = "pending"

abbrev pub status_cancelled : String
status_cancelled = "cancelled"

pub record OrderItem : Type 0 where
  pub record_id : String
  pub title : String
  pub artist : String
  pub price : Float64
  pub quantity : ℤ

pub record Order : Type 0 where
  pub base : BaseModel
  pub open base use *
  pub user_id : String
  pub items : List OrderItem
  pub total : Float64
  pub status : String
  pub shipping_address : Address

pub record OrderParams : Type 0 where
  pub user_id : String
  pub items : List OrderItem
  pub shipping_address : Address

pub record Record : Type 0 where
  pub base : BaseModel
  pub open base use *
  pub title : String
  pub artist : String
  pub year : ℤ
  pub label : String
  pub catalog_number : String
  pub format : String
  pub genre : String
  pub condition : String
  pub price : Float64
  pub stock : ℤ
  pub description : String
  pub archived : Bool

pub record RecordParams : Type 0 where
  pub title : String
  pub artist : String
  pub year : ℤ
  pub label : String
  pub catalog_number : String
  pub format : String
  pub genre : String
  pub condition : String
  pub price : Float64
  pub stock : ℤ
  pub description : String

-- `updated_at` of a base model set to the given instant.
abbrev pub touch : BaseModel → Time → BaseModel
touch b now = record b { updated_at = now }

-- `User.Update`, at the instant that `time.Now()` gives.
unfoldable pub update : User → String → Address → Time → User
update u name address now = record u {
  base = touch u.base now;
  name = if name == "" then u.name else name;
  address = address;
}

-- `User.Deactivate`.
unfoldable pub deactivate : User → Time → User
deactivate u now = record u { base = touch u.base now; active = false }
