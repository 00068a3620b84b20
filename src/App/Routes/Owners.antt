-- ===== src/App/Routes/Owners.antt =====
-- The routes that are for the owner of an account (app/server.go).
use zerohttp_example.Base.{
  ℕ, zero, suc, String, ◌≡◌, refl, inl, inr, true, false, Bool, not, ◌==◌, ◌&&◌, List, [], ◌∷◌, All,
}
use zerohttp_example.Base.Int.{ℤ}
use zerohttp_example.Http.{Request, Outcome, problem}
use zerohttp_example.Models.Platform.{Platform}
use zerohttp_example.Store.Spec.{Db}
use zerohttp_example.Prog.Always.{Ensures}
use zerohttp_example.Handlers.Middleware.{HttpHandler, require_owner}
use zerohttp_example.Handlers.User.{get_user}
use zerohttp_example.Handlers.User.View.{ShowsAccount, get_user-ShowsAccount}
use zerohttp_example.Handlers.User.Owner.{
  AreKeyed, ChangesOnly, update_user-OwnOnly, deactivate_user-OwnOnly,
}
use zerohttp_example.App.Routes.{Route, Zerohttp, limited, Binding, setup_routes}
use zerohttp_example.App.Routes.Guards.{PassesOrRefuses}

-- The route with this method and pattern.
abbrev pub is_route : String → String → Route → Bool
is_route method pattern t = t.method == method && t.pattern == pattern

-- No route passes the test.
abbrev is_nowhere : (Route → Bool) → List Route → Bool
is_nowhere f [] = true
is_nowhere f (t ∷ ts) = not (f t) && is_nowhere f ts

-- No route but the `n`-th passes the test.
abbrev is_only : ℕ → (Route → Bool) → List Route → Bool
is_only n f [] = true
is_only zero f (t ∷ ts) = is_nowhere f ts
is_only (suc n) f (t ∷ ts) = not (f t) && is_only n f ts

-- The `n`-th route satisfies `P`.
abbrev At : ℕ → (Route → Type 0) → List Route → Type 0
At n P [] = Unit {0}
At zero P (t ∷ ts) = P t
At (suc n) P (t ∷ ts) = At n P ts

left : (a b : Bool) → (a && b) ≡ true → a ≡ true
left true b h = refl
left false b h = h

right : (a b : Bool) → (a && b) ≡ true → b ≡ true
right true b h = h
right false b h = absurd (cc h)

unpassed : {P : Type 0} (b : Bool) → not b ≡ true → b ≡ true → P
unpassed true h k = absurd (cc h)
unpassed false h k = absurd (cc k)

All-nowhere :
    (P : Route → Type 0) (f : Route → Bool) (ts : List Route)
    → is_nowhere f ts ≡ true
    → All (λ t. f t ≡ true → P t) ts
All-nowhere P f [] h = tt
All-nowhere P f (t ∷ ts) h = (unpassed (f t) (left _ _ h), All-nowhere P f ts (right _ _ h))

All-only :
    (P : Route → Type 0) (f : Route → Bool) (n : ℕ) (ts : List Route)
    → is_only n f ts ≡ true
    → At n P ts
    → All (λ t. f t ≡ true → P t) ts
All-only P f n [] h a = tt
All-only P f zero (t ∷ ts) h a = ((λ _. a), All-nowhere P f ts h)
All-only P f (suc n) (t ∷ ts) h a = (unpassed (f t) (left _ _ h), All-only P f n ts (right _ _ h) a)

-- What the middleware answers itself changes nothing.
behind :
    (m : HttpHandler → HttpHandler) (h : HttpHandler) (r : Request) (d : Db)
    (Q : Outcome → Db → Type 0)
    → PassesOrRefuses m r
    → ((status : ℕ) (detail : String) → Q (problem status detail) d)
    → Ensures (h r) d Q
    → Ensures (m h r) d Q
behind m h r d Q p refused a = elim (p h) [
  | inl same ↦ rw same a
  | inr (status, detail, same) ↦ rw same (refused status detail)
]

module _ (pf : Platform) (z : Zerohttp) (b : Binding) (ttl : ℤ) (r : Request) (d : Db)
    (jwt : PassesOrRefuses z.jwt r) (limit : PassesOrRefuses (limited z.rate_limit) r)
    (agree : r.param "id" ≡ r.path_value "id") (plain : r.claims.has_scope "admin" ≡ false) where
  protected :
      (h : HttpHandler) (Q : Outcome → Db → Type 0)
      → ((status : ℕ) (detail : String) → Q (problem status detail) d)
      → Ensures (h r) d Q
      → Ensures (z.jwt (limited z.rate_limit h) r) d Q
  protected h Q refused a =
      behind z.jwt (limited z.rate_limit h) r d Q jwt refused
        (behind (limited z.rate_limit) h r d Q limit refused a)

  abbrev pub ShowsOwn : Route → Type 0
  ShowsOwn t = Ensures (t.handler r) d λ o e. (e ≡ d) × ShowsAccount pf r.claims.subject d o

  abbrev pub ChangesOwn : Route → Type 0
  ChangesOwn t = Ensures (t.handler r) d λ o e. ChangesOnly r.claims.subject d e

  -- The route `GET /users/{id}` that is set up shows a caller without the admin scope no account but
  -- the caller's own, as it is stored, and changes nothing; where the token check and the rate limit
  -- each pass a request on or end it with a problem document, and `zh.Param` and `PathValue` agree.
  pub setup_routes-ShowsOwn :
      All (λ t. is_route "GET" "/users/{id}" t ≡ true → ShowsOwn t) (setup_routes pf z b ttl)
  unfolding setup_routes
  setup_routes-ShowsOwn =
      All-only ShowsOwn (is_route "GET" "/users/{id}") 8 (setup_routes pf z b ttl) refl (
        protected (require_owner (get_user pf))
          (λ o e. (e ≡ d) × ShowsAccount pf r.claims.subject d o) (λ status detail. (refl, tt))
          (get_user-ShowsAccount pf d r agree plain))

  -- Whatever a caller without the admin scope asks the routes `PATCH /users/{id}` and
  -- `POST /users/{id}/deactivate` for that are set up, no account but the caller's own changes, and no
  -- record and no order; where the token check and the rate limit each pass a request on or end it
  -- with a problem document, `zh.Param` and `PathValue` agree, and users stand under their own ids.
  pub setup_routes-ChangesOwn :
      AreKeyed d
      → All (λ t. is_route "PATCH" "/users/{id}" t ≡ true → ChangesOwn t) (setup_routes pf z b ttl)
        × All
            (λ t. is_route "POST" "/users/{id}/deactivate" t ≡ true → ChangesOwn t)
            (setup_routes pf z b ttl)
  unfolding setup_routes
  setup_routes-ChangesOwn keyed = (
    All-only ChangesOwn (is_route "PATCH" "/users/{id}") 9 (setup_routes pf z b ttl) refl (
        protected _ (λ o e. ChangesOnly r.claims.subject d e)
          (λ status detail. ((λ j n. refl), refl, refl))
          (update_user-OwnOnly r d agree plain pf b.update_user_request keyed)),
    All-only ChangesOwn (is_route "POST" "/users/{id}/deactivate") 10 (setup_routes pf z b ttl) refl
        (protected _ (λ o e. ChangesOnly r.claims.subject d e)
          (λ status detail. ((λ j n. refl), refl, refl))
          (deactivate_user-OwnOnly r d agree plain keyed)),
  )
