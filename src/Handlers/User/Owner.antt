-- ===== src/Handlers/User/Owner.antt =====
-- The handlers of an account behind `RequireOwner` (handlers/middleware.go, handlers/user.go).
use zerohttp_example.Base.{
  String, ◌≡◌, ◌≢◌, refl, ◌∙◌, ◌⊎◌, subst, inl, inr, Bool-cases, false, not, ◌==◌, ◌&&◌, some,
  Result, ok, err, eq_iff, arith,
}
use zerohttp_example.Http.{Request}
use zerohttp_example.Models.{User, update, deactivate}
use zerohttp_example.Models.Platform.{Platform}
use zerohttp_example.Api.{UpdateUserRequest}
use zerohttp_example.Store.Spec.{Db, put}
use zerohttp_example.Store.Rules.{on_get_user, on_pure, on_write}
use zerohttp_example.Prog.Always.{Ensures, always_mono}
use zerohttp_example.Handlers.Middleware.{HttpHandler, require_owner}
use zerohttp_example.Handlers.User.{update_user, deactivate_user}

-- Every user stands under their own id.
abbrev pub AreKeyed : Db → Type 0
AreKeyed d = (id : String) (u : User) → d.users id ≡ some u → u.id ≡ id

-- Only the account of `id` may differ.
abbrev pub ChangesOnly : String → Db → Db → Type 0
ChangesOnly id d e =
    ((j : String) → j ≢ id → e.users j ≡ d.users j)
    × (e.records ≡ d.records)
    × (e.orders ≡ d.orders)

put-other :
    (d : Db) (u : User) (id : String)
    → u.id ≡ id
    → ChangesOnly id d (record d { users = put d.users u.id u })
put-other d u id k = (
  (λ j n. elim (Bool-cases (j == u.id)) [
    | inl e ↦ absurd (n ((eq_iff j u.id).0 e ∙ k))
    | inr e ↦ rw e refl
  ]),
  refl,
  refl,
)

-- A handler that changes nothing, or only the account of the path.
abbrev KeepsTo : HttpHandler → Db → Type 0
KeepsTo h d =
    (r : Request)
    → Ensures (h r) d
        λ o e. (e ≡ d) ⊎ ((r.path_value "id" ≢ "") × ChangesOnly (r.path_value "id") d e)

named : (s : String) → (s == "") ≡ false → s ≢ ""
named s e h = ground (arith, eq_iff s "")

update_user-KeepsTo :
    (pf : Platform) (bound : Result UpdateUserRequest) (d : Db)
    → AreKeyed d
    → KeepsTo (λ r. update_user pf r bound) d
unfolding update_user update
update_user-KeepsTo pf (err a) d k r = elim (Bool-cases (r.path_value "id" == "")) [
  | inl e ↦ rw e (inl refl)
  | inr e ↦ rw e (on_get_user _ (λ t. inl refl) (λ h. inl refl) (λ u h. inl refl))
]
update_user-KeepsTo pf (ok req) d k r = elim (Bool-cases (r.path_value "id" == "")) [
  | inl e ↦ rw e (inl refl)
  | inr e ↦ rw e (
      on_get_user _ (λ t. inl refl) (λ h. inl refl)
        λ u h.
          let n = named _ e in
          on_pure _ λ t.
            on_write _ (λ s. inl refl) (λ s. inr (n, put-other d _ _ (k _ u h)))
              (inr (n, put-other d _ _ (k _ u h))))
]

deactivate_user-KeepsTo : (d : Db) → AreKeyed d → KeepsTo deactivate_user d
unfolding deactivate_user deactivate
deactivate_user-KeepsTo d k r = elim (Bool-cases (r.path_value "id" == "")) [
  | inl e ↦ rw e (inl refl)
  | inr e ↦ rw e (
      on_get_user _ (λ t. inl refl) (λ h. inl refl)
        λ u h.
          let n = named _ e in
          on_pure _ λ t.
            on_write _ (λ s. inl refl) (λ s. inr (n, put-other d _ _ (k _ u h)))
              (inr (n, put-other d _ _ (k _ u h))))
]

module _ (r : Request) (d : Db) (agree : r.param "id" ≡ r.path_value "id")
    (no_admin : r.claims.has_scope "admin" ≡ false) where
  -- A handler that keeps to the path, given the caller's own path or an empty one.
  own :
      (h : HttpHandler) (q : Request)
      → KeepsTo h d
      → (q.path_value "id" ≢ "" → q.path_value "id" ≡ r.claims.subject)
      → Ensures (h q) d λ o e. ChangesOnly r.claims.subject d e
  own h q keeps mine =
      always_mono (h q) d _ _
        (λ f e. elim [
          | inl same ↦ rw same ((λ j n. refl), refl, refl)
          | inr (n, c) ↦ subst (λ s. ChangesOnly s d e) (mine n) c
        ])
        (keeps q)

  require_owner-Keeps :
      (h : HttpHandler)
      → KeepsTo h d
      → Ensures (require_owner h r) d λ o e. ChangesOnly r.claims.subject d e
  unfolding require_owner
  require_owner-Keeps h keeps = rw no_admin (elim (Bool-cases (r.param "id" == "me")) [
    | inl e ↦ rw e (own h _ keeps (λ n. refl))
    | inr e ↦
        rw e
          (elim (Bool-cases (not (r.param "id" == "") && not (r.param "id" == r.claims.subject))) [
            | inl f ↦ rw f ((λ j n. refl), refl, refl)
            | inr f ↦ rw f (
                own h r keeps λ n.
                  ground (
                    arith,
                    eq_iff (r.param "id") "",
                    eq_iff (r.param "id") r.claims.subject,
                    agree,
                  ))
          ])
  ])

  -- Behind `RequireOwner` a caller without the admin scope changes by `UpdateUser` no account but
  -- their own, and no record and no order; where `zh.Param` and `PathValue` agree and users stand
  -- under their own ids.
  pub update_user-OwnOnly :
      (pf : Platform) (bind : Request → Result UpdateUserRequest)
      → AreKeyed d
      → Ensures
          (require_owner (λ q. update_user pf q (bind q)) r)
          d
          λ o e. ChangesOnly r.claims.subject d e
  update_user-OwnOnly pf bind k = require_owner-Keeps _ (λ q. update_user-KeepsTo pf (bind q) d k q)

  -- The same of `DeactivateUser`.
  pub deactivate_user-OwnOnly :
      AreKeyed d
      → Ensures (require_owner deactivate_user r) d λ o e. ChangesOnly r.claims.subject d e
  deactivate_user-OwnOnly k = require_owner-Keeps _ (deactivate_user-KeepsTo d k)
