-- ===== src/App/Routes/Guards.antt =====
-- Which middleware stands before which routes (app/server.go).
use zerohttp_example.Base.{
  ℕ, String, ◌≡◌, refl, ◌⊎◌, inl, inr, true, false, Bool, Bool-cases, ◌==◌, if◌then◌else◌, All,
}
use zerohttp_example.Base.Int.{ℤ}
use zerohttp_example.Http.{Request, Outcome, problem}
use zerohttp_example.Models.Platform.{Platform}
use zerohttp_example.Store.Spec.{Db}
use zerohttp_example.Prog.{stop}
use zerohttp_example.Prog.Always.{Ensures}
use zerohttp_example.Handlers.Middleware.{HttpHandler, require_admin}
use zerohttp_example.App.Routes.{Route, Zerohttp, limited, Binding, setup_routes}

-- The endpoints that are for admins.
abbrev pub needs_admin : String → String → Bool
needs_admin method pattern =
    if method == "GET"
    then pattern == "/users"
    else if method == "PATCH"
    then pattern == "/records/{id}"
    else if pattern == "/records"
    then true
    else if pattern == "/records/{id}/archive"
    then true
    else pattern == "/inventory/{record_id}/restock"

-- The middleware passes the request on or ends it with a problem document.
abbrev pub PassesOrRefuses : (HttpHandler → HttpHandler) → Request → Type 0
PassesOrRefuses m r =
    (h : HttpHandler)
    → (m h r ≡ h r) ⊎ ((status : ℕ) × (detail : String) × (m h r ≡ stop (problem status detail)))

abbrev pub IsProblem : Outcome → Type 0
IsProblem (problem status detail) = Unit {0}
IsProblem o = ⊥

-- The route answers with a problem document and changes nothing.
abbrev pub Refuses : Db → Request → Route → Type 0
Refuses d r t = Ensures (t.handler r) d λ o e. (e ≡ d) × IsProblem o

never : {A : Type 0} → false ≡ true → A
never h = cc

passed :
    (m : HttpHandler → HttpHandler) (h : HttpHandler) (r : Request) (d : Db)
    → PassesOrRefuses m r
    → Ensures (h r) d (λ o e. (e ≡ d) × IsProblem o)
    → Ensures (m h r) d (λ o e. (e ≡ d) × IsProblem o)
passed m h r d p a = elim (p h) [
  | inl same ↦ rw same a
  | inr (status, detail, same) ↦ rw same (refl, tt)
]

admin-refuses :
    (h : HttpHandler) (r : Request) (d : Db)
    → r.claims.has_scope "admin" ≡ false
    → Ensures (require_admin h r) d (λ o e. (e ≡ d) × IsProblem o)
unfolding require_admin
admin-refuses h r d plain = elim (Bool-cases (r.claims.subject == "")) [
  | inl e ↦ rw e (refl, tt)
  | inr e ↦ rw (e, plain) (refl, tt)
]

module _ (pf : Platform) (z : Zerohttp) (b : Binding) (ttl : ℤ) (r : Request) (d : Db) where
  -- Of all routes that are set up, those for admins (listing users, creating, changing and
  -- archiving records, restocking) answer a request without the admin scope with a problem
  -- document and change nothing; where the token check and the rate limit each pass a request on
  -- or end it with a problem document.
  pub setup_routes-Refuses :
      PassesOrRefuses z.jwt r
      → PassesOrRefuses (limited z.rate_limit) r
      → r.claims.has_scope "admin" ≡ false
      → All (λ t. needs_admin t.method t.pattern ≡ true → Refuses d r t) (setup_routes pf z b ttl)
  unfolding setup_routes
  setup_routes-Refuses j l plain =
      let shut = λ (h : HttpHandler).
        passed z.jwt (limited z.rate_limit (require_admin h)) r d j
          (passed (limited z.rate_limit) (require_admin h) r d l (admin-refuses h r d plain)) in
      (
        never,
        (
          never,
          (
            never,
            (
              never,
              (
                never,
                (
                  never,
                  (
                    never,
                    (
                      never,
                      (
                        never,
                        (
                          never,
                          (
                            never,
                            (
                              never,
                              (
                                never,
                                (
                                  never,
                                  (
                                    never,
                                    (
                                      λ _. shut _,
                                      (
                                        λ _. shut _,
                                        (λ _. shut _, (λ _. shut _, (λ _. shut _, tt))),
                                      ),
                                    ),
                                  ),
                                ),
                              ),
                            ),
                          ),
                        ),
                      ),
                    ),
                  ),
                ),
              ),
            ),
          ),
        ),
      )
