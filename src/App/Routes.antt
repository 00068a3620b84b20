-- ===== src/App/Routes.antt =====
-- The routes and their middleware (`setupRoutes` in app/server.go). The handlers and middleware
-- that come from zerohttp are parameters.
use zerohttp_example.Base.{String, Option, none, some, List, [], ◌∷◌, ◌++◌, map, Result}
use zerohttp_example.Base.Int.{ℤ}
use zerohttp_example.Http.{Request}
use zerohttp_example.Models.Platform.{Platform}
use zerohttp_example.Api.{
  LoginRequest, CreateUserRequest, UpdateUserRequest, CreateRecordRequest, UpdateRecordRequest,
  ListRecordsRequest, CreateOrderRequest, ListOrdersRequest, ListInventoryRequest, RestockRequest,
}
use zerohttp_example.Handlers.Middleware.{HttpHandler, require_admin, require_owner}
use zerohttp_example.Handlers.Auth.{login}
use zerohttp_example.Handlers.User.{create_user, get_user, update_user, deactivate_user, list_users}
use zerohttp_example.Handlers.Record.{
  list_records, get_record, create_record, update_record, archive_record,
}
use zerohttp_example.Handlers.Inventory.{list_inventory, restock_record}
use zerohttp_example.Handlers.Order.{create_order, list_orders, get_order, cancel_order}
pub mod Guards
pub mod Owners

pub record Route : Type 0 where
  pub method : String
  pub pattern : String
  pub handler : HttpHandler

-- `zh.BindAndValidate` for each request type.
pub record Binding : Type 0 where
  pub login_request : Request → Result LoginRequest
  pub create_user_request : Request → Result CreateUserRequest
  pub update_user_request : Request → Result UpdateUserRequest
  pub create_record_request : Request → Result CreateRecordRequest
  pub update_record_request : Request → Result UpdateRecordRequest
  pub list_records_request : Request → Result ListRecordsRequest
  pub create_order_request : Request → Result CreateOrderRequest
  pub list_orders_request : Request → Result ListOrdersRequest
  pub list_inventory_request : Request → Result ListInventoryRequest
  pub restock_request : Request → Result RestockRequest

-- What zerohttp gives: the middleware `jwtauth.New`, the rate limit of the authenticated tier, which
-- `setupAuthenticatedRateLimit` leaves nil if it is not enabled, and `idempotency.New`; the welcome
-- page; the handlers for refresh and logout.
pub record Zerohttp : Type 0 where
  pub jwt : HttpHandler → HttpHandler
  pub rate_limit : Option (HttpHandler → HttpHandler)
  pub idempotency : HttpHandler → HttpHandler
  pub welcome : HttpHandler
  pub refresh : HttpHandler
  pub logout : HttpHandler

-- `r.Use` skips a middleware that is nil.
abbrev pub limited : Option (HttpHandler → HttpHandler) → HttpHandler → HttpHandler
limited none h = h
limited (some m) h = m h

-- `r.Use(m)` on a group of routes.
abbrev pub using : (HttpHandler → HttpHandler) → List Route → List Route
using m = map {A = Route} {B = Route} (λ t. record t { handler = m t.handler })

abbrev pub get : String → HttpHandler → Route
get pattern h = record { method = "GET"; pattern = pattern; handler = h }

abbrev pub post : String → HttpHandler → Route
post pattern h = record { method = "POST"; pattern = pattern; handler = h }

abbrev pub patch : String → HttpHandler → Route
patch pattern h = record { method = "PATCH"; pattern = pattern; handler = h }

module _ (pf : Platform) (z : Zerohttp) (b : Binding) (expires_in : ℤ) where
  abbrev pub public_routes : List Route
  public_routes =
      get "/" z.welcome
      ∷ post "/auth/login" (λ r. login pf expires_in (b.login_request r))
      ∷ post "/users" (λ r. create_user pf (b.create_user_request r))
      ∷ get "/records" (λ r. list_records pf (b.list_records_request r))
      ∷ get "/records/{id}" (get_record pf)
      ∷ get "/inventory" (λ r. list_inventory pf (b.list_inventory_request r))
      ∷ post "/auth/refresh" z.refresh
      ∷ post "/auth/logout" z.logout
      ∷ []

  abbrev pub owner_routes : List Route
  owner_routes = using require_owner (
      get "/users/{id}" (get_user pf)
      ∷ patch "/users/{id}" (λ r. update_user pf r (b.update_user_request r))
      ∷ post "/users/{id}/deactivate" deactivate_user
      ∷ [])

  abbrev pub order_routes : List Route
  order_routes =
      post "/orders" (z.idempotency (λ r. create_order pf r (b.create_order_request r)))
      ∷ get "/orders" (λ r. list_orders pf r (b.list_orders_request r))
      ∷ get "/orders/{id}" (get_order pf)
      ∷ post "/orders/{id}/cancel" cancel_order
      ∷ []

  abbrev pub admin_routes : List Route
  admin_routes = using require_admin (
      get "/users" (λ r. list_users pf)
      ∷ post "/records" (λ r. create_record pf (b.create_record_request r))
      ∷ patch "/records/{id}" (λ r. update_record pf r (b.update_record_request r))
      ∷ post "/records/{id}/archive" archive_record
      ∷ post "/inventory/{record_id}/restock" (λ r. restock_record pf r (b.restock_request r))
      ∷ [])

  -- The group behind `jwtauth.New` and the rate limit.
  abbrev pub protected_routes : List Route
  protected_routes =
      using (λ h. z.jwt (limited z.rate_limit h)) (owner_routes ++ order_routes ++ admin_routes)

  unfoldable pub setup_routes : List Route
  setup_routes = public_routes ++ protected_routes
