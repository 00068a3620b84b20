-- ===== src/Concurrent/Obeys.antt =====
-- What the handlers save (handlers/user.go, handlers/record.go, handlers/inventory.go,
-- handlers/order.go), and when the rules of a regime allow it.
pub mod Users
pub mod Records
pub mod Orders
use zerohttp_example.Base.{
  true, false, Option, Bool, String, ◌≡◌, ◌≢◌, refl, inl, inr, Bool-cases, ◌==◌, none, some, List,
  [], ◌∷◌, arith, eq_iff, All, Result, ok, err,
}
use zerohttp_example.Http.{Request}
use zerohttp_example.Models.{
  Address, User, OrderItem, Order, Time, role_user, status_pending, update, deactivate,
}
use zerohttp_example.Models.New.{new_order, new_base, new_user, user_of_hash}
use zerohttp_example.Models.Platform.{Platform}
use zerohttp_example.Api.{
  OrderItemRequest, CreateUserRequest, UpdateUserRequest, CreateOrderRequest,
}
use zerohttp_example.Handlers.Middleware.{get_user_id}
use zerohttp_example.Handlers.User.{create_user, update_user, deactivate_user}
use zerohttp_example.Handlers.Order.{
  create_order, cancel_order, reserve, reserve_all, restore_stock, is_stranger,
}
use zerohttp_example.Handlers.Record.{create_record, update_record, archive_record, apply_update}
use zerohttp_example.Handlers.Inventory.{restock_record}
use zerohttp_example.Handlers.Order.{give_back}
use zerohttp_example.Models.{BaseModel, Record, touch}
use zerohttp_example.Models.New.{new_record}
use zerohttp_example.Api.{CreateRecordRequest, UpdateRecordRequest, RestockRequest}
use zerohttp_example.Base.Int.{ℤ, add_int}
use zerohttp_example.Handlers.Order.Cancel.{cancelled}
use zerohttp_example.Concurrent.Regime.{
  IfFound, Regime, Obeys, Returns, Returns-bind, Returns-any, Obeys-bind, Spares-Obeys,
}

-- The items of an order have the quantities that were asked for.
abbrev pub Counted : List OrderItemRequest → List OrderItem → Type 0
Counted [] [] = Unit {0}
Counted (i ∷ is) (x ∷ xs) = (x.quantity ≡ i.quantity) × Counted is xs
Counted _ _ = ⊥

-- What is known of the requests that have been bound: the items of one for an order, and those for
-- records.
pub record Validity : Type 1 where
  pub FineItems : List OrderItemRequest → Type 0
  pub FineRecord : CreateRecordRequest → Type 0
  pub FinePatch : UpdateRecordRequest → Type 0

-- Nothing is known of the requests.
abbrev pub any_request : Validity
any_request = record {
  FineItems = λ is. Unit {0};
  FineRecord = λ req. Unit {0};
  FinePatch = λ req. Unit {0};
}

-- Any quantities can be taken.
pub any_count : (is : List OrderItemRequest) → All (λ i. Unit {0}) is
any_count [] = tt
any_count (i ∷ is) = (tt, any_count is)

-- The record that `CreateRecord` makes of a request.
abbrev pub record_of : BaseModel → CreateRecordRequest → Record
record_of base req = record {
  base = base;
  title = req.title;
  artist = req.artist;
  year = req.year;
  label = req.label;
  catalog_number = req.catalog_number;
  format = req.format;
  genre = req.genre;
  condition = req.condition;
  price = req.price;
  stock = req.stock;
  description = req.description;
  archived = false;
}

-- The rules allow what the handlers save, if requests are as `v` says.
pub record Tolerates (g : Regime) (v : Validity) : Type 0 where
  pub signed_up : (u : User) → g.IsNew u.id → u.role ≡ role_user → g.SavedUser u
  pub updated :
      (u : User) (name : String) (address : Address) (t : Time)
      → g.SeenUser u
      → g.SavedUser (update u name address t)
  pub deactivated : (u : User) (t : Time) → g.SeenUser u → g.SavedUser (deactivate u t)
  pub recorded :
      (base : BaseModel) (req : CreateRecordRequest)
      → v.FineRecord req
      → g.SavedRecord (record_of base req)
  pub patched :
      (pf : Platform) (x : Record) (req : UpdateRecordRequest) (has_body : Bool) (t : Time)
      → v.FinePatch req
      → g.SeenRecord x
      → g.SavedRecord (apply_update pf x req has_body t)
  pub archived :
      (x : Record) (t : Time)
      → g.SeenRecord x
      → g.SavedRecord (record x { base = touch x.base t; archived = true })
  pub stocked :
      (x : Record) (n : ℤ) (t : Time)
      → g.SeenRecord x
      → g.SavedRecord (record x { base = touch x.base t; stock = n })
  pub taken : (is : List OrderItemRequest) → v.FineItems is → All (λ i. g.Taken i.quantity) is
  pub placed :
      (o : Order) (is : List OrderItemRequest)
      → g.IsNew o.id
      → o.status ≡ status_pending
      → o.user_id ≢ ""
      → v.FineItems is
      → Counted is o.items
      → g.SavedOrder o
  pub withdrawn :
      (o : Order) (t : Time)
      → g.SeenOrder o
      → o.status ≡ status_pending
      → g.SavedOrder (cancelled o t)
