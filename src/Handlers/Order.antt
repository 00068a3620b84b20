-- ===== src/Handlers/Order.antt =====
-- The handlers of /orders (handlers/order.go).
pub mod Access
pub mod Stock
pub mod Reserve
pub mod Create
pub mod Restore
pub mod Cancel
pub mod Leak
pub mod Fulfil
pub mod Undo
use zerohttp_example.Base.{
  String, concat, Bool, not, ◌==◌, ◌&&◌, if◌then◌else◌, Option, none, some, List, [], ◌∷◌, map,
  Result,
}
use zerohttp_example.Base.Int.{add_int}
use zerohttp_example.Http.{Request, Outcome, rendered, paged, no_content}
use zerohttp_example.Http
use zerohttp_example.Models.{OrderItem, Order, role_admin, status_pending, status_cancelled, touch}
use zerohttp_example.Models
use zerohttp_example.Models.New.{new_order}
use zerohttp_example.Models.Platform.{Platform}
use zerohttp_example.Api.{
  OrderItemRequest, CreateOrderRequest, ListOrdersRequest, new_order_response,
}
use zerohttp_example.Store.{
  OrderFilter, decrement_stock, save_order, save_record, get_record, get_orders_by_user, now,
}
use zerohttp_example.Store
use zerohttp_example.Prog.{Prog, ret, ask, try, found, refuse_if, ◌>>=◌, ◌>>◌}
use zerohttp_example.Handlers.Middleware.{get_user_id, get_role}

-- One round of the loop of `CreateOrder`: look the record up and take the stock.
unfoldable pub reserve : OrderItemRequest → Prog OrderItem
reserve item = do
  rec ←
      found (← try (← ask (get_record item.record_id))) 404
        (concat "record not found: " item.record_id)
  refuse_if rec.archived 409 (concat "record is archived: " item.record_id)
  success ← try (← ask (decrement_stock item.record_id item.quantity))
  refuse_if (not success) 409 (concat "insufficient stock for: " rec.title)
  ret (record {
    record_id = rec.id;
    title = rec.title;
    artist = rec.artist;
    price = rec.price;
    quantity = item.quantity;
  })

unfoldable pub reserve_all : List OrderItemRequest → Prog (List OrderItem)
unfolding reserve
reserve_all [] = ret []
reserve_all (i ∷ is) = do item ← reserve i; rest ← reserve_all is; ret (item ∷ rest)

-- One round of the loop of `CancelOrder`: give the stock back, if the record is there.
unfoldable pub give_back : Option Models.Record → OrderItem → Prog (Unit {0})
unfolding add_int
give_back none item = ret tt
give_back (some rec) item = do
  updated_at ← ask now
  try
      (← ask (
        save_record (record rec {
          base = touch rec.base updated_at;
          stock = add_int rec.stock item.quantity;
        })))

unfoldable pub restore_stock : List OrderItem → Prog (Unit {0})
unfolding give_back
restore_stock [] = ret tt
restore_stock (i ∷ is) = do
  rec ← try (← ask (get_record i.record_id))
  give_back rec i
  restore_stock is

-- `role != models.RoleAdmin && order.UserID != userID`.
unfoldable pub is_stranger : Request → Order → Bool
unfolding get_user_id get_role
is_stranger r o = not (get_role r == role_admin) && not (o.user_id == get_user_id r)

unfoldable pub cancel_order : Request → Prog Outcome
unfolding restore_stock
cancel_order r = do
  let id = r.path_value "id"
  refuse_if (id == "") 400 "order id is required"
  order ← found (← try (← ask (Store.get_order id))) 404 "order not found"
  refuse_if (is_stranger r order) 403 "access denied"
  refuse_if (not (order.status == status_pending)) 409
      (concat "cannot cancel order with status: " order.status)
  restore_stock order.items
  updated_at ← ask now
  try
      (← ask (
        save_order
          (record order { base = touch order.base updated_at; status = status_cancelled })))
  ret no_content

-- The user whose orders `ListOrders` asks for: an admin may name another.
unfoldable pub query_user_id : Request → ListOrdersRequest → String
unfolding get_user_id get_role
query_user_id r req =
    if get_role r == role_admin && not (req.user_id == "") then req.user_id else get_user_id r

module _ (pf : Platform) where
  unfoldable pub create_order : Request → Result CreateOrderRequest → Prog Outcome
  unfolding get_user_id reserve_all new_order
  create_order r bound = do
    req ← try bound
    refuse_if (get_user_id r == "") 401 "authentication required"
    items ← reserve_all req.items
    order ←
        new_order pf (record {
          user_id = get_user_id r;
          items = items;
          shipping_address = req.shipping_address;
        })
    try (← ask (save_order order))
    ret (rendered 201 (Http.order (new_order_response pf order)))

  unfoldable pub list_orders : Request → Result ListOrdersRequest → Prog Outcome
  unfolding query_user_id get_user_id
  list_orders r bound = do
    req ← try bound
    refuse_if (get_user_id r == "") 401 "authentication required"
    (orders, total) ←
        try
          (← ask (
            get_orders_by_user (record {
              base = record { page = req.page; per_page = req.per_page };
              user_id = query_user_id r req;
              status = req.status;
            })))
    let params = pf.defaults (record { page = req.page; per_page = req.per_page })
    ret (paged params total 200 (Http.orders (map (new_order_response pf) orders)))

  unfoldable pub get_order : Request → Prog Outcome
  get_order r = do
    let id = r.path_value "id"
    refuse_if (id == "") 400 "order id is required"
    order ← found (← try (← ask (Store.get_order id))) 404 "order not found"
    refuse_if (is_stranger r order) 403 "access denied"
    ret (rendered 200 (Http.order (new_order_response pf order)))
