-- ===== src/Handlers/User/View.antt =====
-- `GetUser` behind `RequireOwner` (handlers/middleware.go, handlers/user.go).
use zerohttp_example.Base.{
  String, ◌≡◌, refl, subst, inl, inr, Bool-cases, false, not, ◌==◌, ◌&&◌, some, eq_iff, arith,
}
use zerohttp_example.Http.{Request, Outcome, rendered, problem, failed, set_path_value}
use zerohttp_example.Http
use zerohttp_example.Models.{User}
use zerohttp_example.Models.Platform.{Platform}
use zerohttp_example.Api.{new_user_response}
use zerohttp_example.Store.Spec.{Db}
use zerohttp_example.Store.Rules.{on_get_user}
use zerohttp_example.Prog.Always.{Ensures}
use zerohttp_example.Handlers.Middleware.{require_owner}
use zerohttp_example.Handlers.User.{get_user}

-- What a caller may be shown: the stored account of `id`, or a refusal.
abbrev pub ShowsAccount : Platform → String → Db → Outcome → Type 0
ShowsAccount pf id d (rendered status b) =
    (status ≡ 200) × (u : User) × (d.users id ≡ some u) × (b ≡ Http.user (new_user_response pf u))
ShowsAccount pf id d (problem status detail) = Unit {0}
ShowsAccount pf id d (failed t) = Unit {0}
ShowsAccount pf id d o = ⊥

module _ (pf : Platform) (d : Db) where
  shown :
      (q : Request) (id : String)
      → ((q.path_value "id" == "") ≡ false → q.path_value "id" ≡ id)
      → Ensures (get_user pf q) d λ o e. (e ≡ d) × ShowsAccount pf id d o
  unfolding get_user
  shown q id mine = elim (Bool-cases (q.path_value "id" == "")) [
    | inl e ↦ rw e (refl, tt)
    | inr e ↦ rw e (
        on_get_user _ (λ t. (refl, tt)) (λ h. (refl, tt))
          λ u h. (refl, (refl, u, subst (λ k. d.users k ≡ some u) (mine e) h, refl)))
  ]

  -- Behind `RequireOwner`, `GetUser` shows a caller without the admin scope no account but the
  -- caller's own, as it is stored, and changes nothing; where `zh.Param` and `PathValue` agree.
  pub get_user-ShowsAccount :
      (r : Request)
      → r.param "id" ≡ r.path_value "id"
      → r.claims.has_scope "admin" ≡ false
      → Ensures
          (require_owner (get_user pf) r)
          d
          λ o e. (e ≡ d) × ShowsAccount pf r.claims.subject d o
  unfolding require_owner
  get_user-ShowsAccount r agree plain = rw plain (elim (Bool-cases (r.param "id" == "me")) [
    | inl e ↦ rw e (shown (set_path_value r "id" r.claims.subject) r.claims.subject (λ n. refl))
    | inr e ↦
        rw e
          (elim (Bool-cases (not (r.param "id" == "") && not (r.param "id" == r.claims.subject))) [
            | inl f ↦ rw f (refl, tt)
            | inr f ↦ rw f (
                shown r r.claims.subject λ n. ground (
                  arith,
                  eq_iff (r.param "id") "",
                  eq_iff (r.path_value "id") "",
                  eq_iff (r.param "id") r.claims.subject,
                  agree,
                ))
          ])
  ])
