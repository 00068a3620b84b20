-- ===== src/Api.antt =====
-- The requests and responses of the API, as the handlers declare them (handlers/user.go,
-- handlers/record.go, handlers/order.go, handlers/inventory.go, handlers/auth.go), with the
-- functions that turn a model into a response. A pointer field is an `Option`.

use zerohttp_example.Base.{String, Bool, if◌then◌else◌, Option, none, some, List, map}
use zerohttp_example.Base.Int.{ℤ}
use zerohttp_example.Models.{
  Address, Float64, User, Record, Order, OrderItem, address_eq, empty_address,
}
use zerohttp_example.Models.Platform.{Platform}

pub record LoginRequest : Type 0 where
  pub email : String
  pub password : String

pub record LoginResponse : Type 0 where
  pub access_token : String
  pub refresh_token : String
  pub token_type : String
  pub expires_in : ℤ

pub record CreateUserRequest : Type 0 where
  pub email : String
  pub name : String
  pub password : String
  pub address : Option Address

pub record UpdateUserRequest : Type 0 where
  pub name : String
  pub address : Option Address

pub record UserResponse : Type 0 where
  pub id : String
  pub email : String
  pub name : String
  pub address : Option Address
  pub active : Bool
  pub role : String
  pub created_at : String
  pub updated_at : String

-- The bodies of `POST /records` and `PATCH /records/{id}` have the same fields; they differ in
-- what the validator asks of them.
pub record CreateRecordRequest : Type 0 where
  pub title : String
  pub artist : String
  pub year : ℤ
  pub label : String
  pub catalog_number : String
  pub format : String
  pub genre : String
  pub condition : String
  pub price : Float64
  pub stock : ℤ
  pub description : String

pub record UpdateRecordRequest : Type 0 where
  pub title : String
  pub artist : String
  pub year : ℤ
  pub label : String
  pub catalog_number : String
  pub format : String
  pub genre : String
  pub condition : String
  pub price : Float64
  pub stock : ℤ
  pub description : String

pub record RecordResponse : Type 0 where
  pub id : String
  pub title : String
  pub artist : String
  pub year : ℤ
  pub label : String
  pub catalog_number : String
  pub format : String
  pub genre : String
  pub condition : String
  pub price : Float64
  pub stock : ℤ
  pub description : String
  pub archived : Bool
  pub created_at : String
  pub updated_at : String

-- The embedded `pagination.Request`.
pub record ListRecordsRequest : Type 0 where
  pub page : ℤ
  pub per_page : ℤ
  pub genre : List String
  pub decade : ℤ
  pub condition : List String
  pub format : List String
  pub artist : String
  pub min_price : Float64
  pub max_price : Float64
  pub in_stock : Bool
  pub sort : String

pub record OrderItemRequest : Type 0 where
  pub record_id : String
  pub quantity : ℤ

pub record CreateOrderRequest : Type 0 where
  pub items : List OrderItemRequest
  pub shipping_address : Address

pub record OrderItemResponse : Type 0 where
  pub record_id : String
  pub title : String
  pub artist : String
  pub price : Float64
  pub quantity : ℤ

pub record OrderResponse : Type 0 where
  pub id : String
  pub user_id : String
  pub items : List OrderItemResponse
  pub total : Float64
  pub status : String
  pub shipping_address : Address
  pub created_at : String
  pub updated_at : String

pub record ListOrdersRequest : Type 0 where
  pub page : ℤ
  pub per_page : ℤ
  pub user_id : String
  pub status : String

pub record InventoryItem : Type 0 where
  pub id : String
  pub title : String
  pub artist : String
  pub stock : ℤ
  pub low_stock : Bool
  pub reorder_needed : Bool

pub record ListInventoryRequest : Type 0 where
  pub page : ℤ
  pub per_page : ℤ

pub record ListInventoryResponse : Type 0 where
  pub items : List InventoryItem
  pub low_stock : ℤ
  pub out_of_stock : ℤ

pub record RestockRequest : Type 0 where
  pub quantity : ℤ

pub record RestockResponse : Type 0 where
  pub id : String
  pub title : String
  pub previous_stock : ℤ
  pub new_stock : ℤ
  pub restocked_at : String

module _ (pf : Platform) where
  unfoldable pub new_user_response : User → UserResponse
  new_user_response u = record {
    id = u.id;
    email = u.email;
    name = u.name;
    address = if address_eq u.address empty_address then none else some u.address;
    active = u.active;
    role = u.role;
    created_at = pf.rfc3339 u.created_at;
    updated_at = pf.rfc3339 u.updated_at;
  }

  unfoldable pub new_record_response : Record → RecordResponse
  new_record_response r = record {
    id = r.id;
    title = r.title;
    artist = r.artist;
    year = r.year;
    label = r.label;
    catalog_number = r.catalog_number;
    format = r.format;
    genre = r.genre;
    condition = r.condition;
    price = r.price;
    stock = r.stock;
    description = r.description;
    archived = r.archived;
    created_at = pf.rfc3339 r.created_at;
    updated_at = pf.rfc3339 r.updated_at;
  }

  abbrev pub order_item_response : OrderItem → OrderItemResponse
  order_item_response i = record {
    record_id = i.record_id;
    title = i.title;
    artist = i.artist;
    price = i.price;
    quantity = i.quantity;
  }

  unfoldable pub new_order_response : Order → OrderResponse
  new_order_response o = record {
    id = o.id;
    user_id = o.user_id;
    items = map order_item_response o.items;
    total = o.total;
    status = o.status;
    shipping_address = o.shipping_address;
    created_at = pf.rfc3339 o.created_at;
    updated_at = pf.rfc3339 o.updated_at;
  }
