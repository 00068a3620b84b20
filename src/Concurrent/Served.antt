-- ===== src/Concurrent/Served.antt =====
-- The handlers of the routes keep to their duties (app/server.go).
use zerohttp_example.Base.{
  ok, ◌≡◌, ◌⊎◌, inl, inr, Bool-cases, ◌==◌, ◌&&◌, not, List, [], ◌∷◌, map, ◌++◌, All, All-append,
  All-Mem,
}
use zerohttp_example.Base.Int.{ℤ}
use zerohttp_example.Http.{Request, Outcome}
use zerohttp_example.Models.Platform.{Platform}
use zerohttp_example.Prog.{stop}
use zerohttp_example.Handlers.Middleware.{HttpHandler, require_admin, require_owner}
use zerohttp_example.App.Routes.{
  Route, Zerohttp, limited, Binding, using, public_routes, owner_routes, order_routes, admin_routes,
  protected_routes, setup_routes,
}
use zerohttp_example.Concurrent.{Pool}
use zerohttp_example.Concurrent.Spares
use zerohttp_example.Concurrent.Spares.{Spares}
use zerohttp_example.Concurrent.Regime.{Regime, Obeys, Spares-Obeys}
use zerohttp_example.Concurrent.Obeys.{Validity, any_request, Tolerates}
use zerohttp_example.Concurrent.Obeys.Users.{
  create_user-Obeys, update_user-Obeys, deactivate_user-Obeys,
}
use zerohttp_example.Concurrent.Obeys.Records.{
  create_record-Obeys, update_record-Obeys, archive_record-Obeys, restock_record-Obeys,
}
use zerohttp_example.Concurrent.Obeys.Orders.{create_order-Obeys, cancel_order-Obeys}
use zerohttp_example.Api.{CreateOrderRequest, CreateRecordRequest, UpdateRecordRequest}
use mathlib.Core.List.{Memᴰ}

-- The middleware hands a request on to the handler, or answers it without a call of the store.
abbrev pub Passes : (HttpHandler → HttpHandler) → Type 0
Passes m = (h : HttpHandler) (r : Request) → (m h r ≡ h r) ⊎ ((o : Outcome) × (m h r ≡ stop o))

-- What zerohttp gives writes nothing.
pub record IsPlain (z : Zerohttp) : Type 0 where
  pub jwt : Passes z.jwt
  pub rate_limit : Passes (limited z.rate_limit)
  pub idempotency : Passes z.idempotency
  pub welcome : (r : Request) → Spares (z.welcome r)
  pub refresh : (r : Request) → Spares (z.refresh r)
  pub logout : (r : Request) → Spares (z.logout r)

-- Requests that bind are as `v` says.
pub record Binds (b : Binding) (v : Validity) : Type 0 where
  pub items :
      (r : Request) (req : CreateOrderRequest)
      → b.create_order_request r ≡ ok req
      → v.FineItems req.items
  pub new_record :
      (r : Request) (req : CreateRecordRequest)
      → b.create_record_request r ≡ ok req
      → v.FineRecord req
  pub patch :
      (r : Request) (req : UpdateRecordRequest)
      → b.update_record_request r ≡ ok req
      → v.FinePatch req

-- The handlers of a list of requests, each to a route; none has begun.
abbrev pub served : List (Route × Request) → Pool
served = map (λ q. q.0.handler q.1)

module _ (g : Regime) where
  abbrev AllObey : HttpHandler → Type 0
  AllObey h = (r : Request) → Obeys g (h r)

  Passes-AllObey :
      (m : HttpHandler → HttpHandler) (h : HttpHandler) → Passes m → AllObey h → AllObey (m h)
  Passes-AllObey m h p a r = elim (p h r) [ inl same ↦ rw same (a r) | inr (o, same) ↦ rw same tt ]

  require_admin-AllObey : (h : HttpHandler) → AllObey h → AllObey (require_admin h)
  unfolding require_admin
  require_admin-AllObey h a r = elim (Bool-cases (r.claims.subject == "")) [
    | inl e ↦ rw e tt
    | inr e ↦
        rw e
          (elim (Bool-cases (r.claims.has_scope "admin")) [ inl s ↦ rw s (a r) | inr s ↦ rw s tt ])
  ]

  require_owner-AllObey : (h : HttpHandler) → AllObey h → AllObey (require_owner h)
  unfolding require_owner
  require_owner-AllObey h a r = elim (Bool-cases (r.claims.has_scope "admin")) [
    | inl s ↦ rw s (a _)
    | inr s ↦ rw s (elim (Bool-cases (r.param "id" == "me")) [
      | inl e ↦ rw e (a _)
      | inr e ↦
          rw e
            (elim (Bool-cases
              (not (r.param "id" == "") && not (r.param "id" == r.claims.subject))) [
                | inl f ↦ rw f tt
                | inr f ↦ rw f (a r)
              ])
    ])
  ]

  module _ (pf : Platform) (z : Zerohttp) (b : Binding) (ttl : ℤ) (plain : IsPlain z) {v : Validity}
      (binds : Binds b v) (tol : Tolerates g v) where
    using-AllRoutes :
        (m : HttpHandler → HttpHandler) (ts : List Route)
        → ((h : HttpHandler) → AllObey h → AllObey (m h))
        → All (λ t. AllObey t.handler) ts
        → All (λ t. AllObey t.handler) (using m ts)
    using-AllRoutes m [] w a = tt
    using-AllRoutes m (t ∷ ts) w a = (w t.handler a.0, using-AllRoutes m ts w a.1)

    sparing : (h : HttpHandler) → ((r : Request) → Spares (h r)) → AllObey h
    sparing h s r = Spares-Obeys g (h r) (s r)

    public-AllRoutes : All (λ t. AllObey t.handler) (public_routes pf z b ttl)
    public-AllRoutes = (
      sparing _ plain.welcome,
      (
        sparing _ (λ r. Spares.login-Spares pf ttl (b.login_request r)),
        (
          (λ r. create_user-Obeys g tol pf (b.create_user_request r)),
          (
            sparing _ (λ r. Spares.list_records-Spares pf (b.list_records_request r)),
            (
              sparing _ (Spares.get_record-Spares pf),
              (
                sparing _ (λ r. Spares.list_inventory-Spares pf (b.list_inventory_request r)),
                (sparing _ plain.refresh, (sparing _ plain.logout, tt)),
              ),
            ),
          ),
        ),
      ),
    )

    owner-AllRoutes : All (λ t. AllObey t.handler) (owner_routes pf z b ttl)
    owner-AllRoutes =
        let own = λ (h : HttpHandler) (s : (r : Request) → Spares (h r)).
          require_owner-AllObey h (sparing h s) in
        (
          own _ (Spares.get_user-Spares pf),
          (
            require_owner-AllObey _ (λ r. update_user-Obeys g tol pf r (b.update_user_request r)),
            (require_owner-AllObey _ (deactivate_user-Obeys g tol), tt),
          ),
        )

    order-AllRoutes : All (λ t. AllObey t.handler) (order_routes pf z b ttl)
    order-AllRoutes = (
      Passes-AllObey z.idempotency _ plain.idempotency
          (λ r. create_order-Obeys g tol pf r (b.create_order_request r) (binds.items r)),
      (
        sparing _ (λ r. Spares.list_orders-Spares pf r (b.list_orders_request r)),
        (sparing _ (Spares.get_order-Spares pf), (cancel_order-Obeys g tol, tt)),
      ),
    )

    admin-AllRoutes : All (λ t. AllObey t.handler) (admin_routes pf z b ttl)
    admin-AllRoutes =
        let own = λ (h : HttpHandler) (s : (r : Request) → Spares (h r)).
          require_admin-AllObey h (sparing h s) in
        (
          own _ (λ r. Spares.list_users-Spares pf),
          (
            require_admin-AllObey _ (λ r.
                create_record-Obeys g tol pf (b.create_record_request r) (binds.new_record r)),
            (
              require_admin-AllObey _
                  (λ r. update_record-Obeys g tol pf r (b.update_record_request r) (binds.patch r)),
              (
                require_admin-AllObey _ (archive_record-Obeys g tol),
                (
                  require_admin-AllObey _
                      (λ r. restock_record-Obeys g tol pf r (b.restock_request r)),
                  tt,
                ),
              ),
            ),
          ),
        )

    setup_routes-AllRoutes : All (λ t. AllObey t.handler) (setup_routes pf z b ttl)
    unfolding setup_routes
    setup_routes-AllRoutes =
        let owner = owner_routes pf z b ttl in
        let order = order_routes pf z b ttl in
        let admin = admin_routes pf z b ttl in
        let P = λ (t : Route). AllObey t.handler in
        All-append P (public_routes pf z b ttl) (protected_routes pf z b ttl) public-AllRoutes (
          using-AllRoutes (λ h. z.jwt (limited z.rate_limit h)) (owner ++ order ++ admin)
            (λ h a.
              Passes-AllObey z.jwt (limited z.rate_limit h) plain.jwt
                (Passes-AllObey (limited z.rate_limit) h plain.rate_limit a))
            (All-append P (owner ++ order) admin
              (All-append P owner order owner-AllRoutes order-AllRoutes) admin-AllRoutes))

    pub served-Obeys :
        (qs : List (Route × Request))
        → All (λ q. Memᴰ q.0 (setup_routes pf z b ttl)) qs
        → All (Obeys g) (served qs)
    served-Obeys [] m = tt
    served-Obeys (q ∷ qs) m =
        (All-Mem (λ t. AllObey t.handler) _ setup_routes-AllRoutes q.0 m.0 q.1, served-Obeys qs m.1)

pub any_request-Binds : (b : Binding) → Binds b any_request
any_request-Binds b = record {
  items = λ r req e. tt;
  new_record = λ r req e. tt;
  patch = λ r req e. tt;
}
