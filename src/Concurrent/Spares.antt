-- ===== src/Concurrent/Spares.antt =====
-- The handlers that write nothing (handlers/auth.go, and the reading ones of handlers/user.go,
-- handlers/record.go, handlers/inventory.go and handlers/order.go).
use zerohttp_example.Base.{Result, arith}
use zerohttp_example.Base.Int.{ℤ}
use zerohttp_example.Http.{Request}
use zerohttp_example.Models.Platform.{Platform}
use zerohttp_example.Api.{LoginRequest, ListRecordsRequest, ListOrdersRequest, ListInventoryRequest}
use zerohttp_example.Store.{Call, save_user, save_record, save_order, decrement_stock}
use zerohttp_example.Prog.{Prog}
use zerohttp_example.Prog.Run.{Calls}
use zerohttp_example.Handlers.Auth.{login, authenticate, generate_session_id}
use zerohttp_example.Handlers.User.{get_user, list_users}
use zerohttp_example.Handlers.Record.{list_records, get_record, unarchived}
use zerohttp_example.Handlers.Inventory.{list_inventory}
use zerohttp_example.Handlers.Order.{list_orders, get_order}

-- A call that writes nothing.
abbrev pub NoSave : Call → Type 0
NoSave (save_user u) = ⊥
NoSave (save_record x) = ⊥
NoSave (save_order o) = ⊥
NoSave (decrement_stock id q) = ⊥
NoSave _ = Unit {0}

abbrev pub Spares : {A : Type 0} → Prog A → Type 0
Spares = Calls NoSave

pub login-Spares : (pf : Platform) (ttl : ℤ) (b : Result LoginRequest) → Spares (login pf ttl b)
unfolding login authenticate generate_session_id
login-Spares pf ttl b = ground arith

pub get_user-Spares : (pf : Platform) (r : Request) → Spares (get_user pf r)
unfolding get_user
get_user-Spares pf r = ground arith

pub list_users-Spares : (pf : Platform) → Spares (list_users pf)
unfolding list_users
list_users-Spares pf = ground arith

pub list_records-Spares :
    (pf : Platform) (b : Result ListRecordsRequest) → Spares (list_records pf b)
unfolding list_records
list_records-Spares pf b = ground arith

pub get_record-Spares : (pf : Platform) (r : Request) → Spares (get_record pf r)
unfolding get_record unarchived
get_record-Spares pf r = ground arith

pub list_inventory-Spares :
    (pf : Platform) (b : Result ListInventoryRequest) → Spares (list_inventory pf b)
unfolding list_inventory
list_inventory-Spares pf b = ground arith

pub list_orders-Spares :
    (pf : Platform) (r : Request) (b : Result ListOrdersRequest) → Spares (list_orders pf r b)
unfolding list_orders
list_orders-Spares pf r b = ground arith

pub get_order-Spares : (pf : Platform) (r : Request) → Spares (get_order pf r)
unfolding get_order
get_order-Spares pf r = ground arith
