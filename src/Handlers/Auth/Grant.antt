-- ===== src/Handlers/Auth/Grant.antt =====
-- `Login` as a whole (handlers/auth.go).
use zerohttp_example.Base.{String, ◌≡◌, refl, ◌⊎◌, inl, inr, Bool-cases, true, false, some, ok, err}
use zerohttp_example.Base.Int.{ℤ}
use zerohttp_example.Http.{Outcome, rendered, problem, failed, panicked}
use zerohttp_example.Http
use zerohttp_example.Models.{User}
use zerohttp_example.Models.Platform.{Platform}
use zerohttp_example.Api.{LoginRequest}
use zerohttp_example.Store.Spec.{Db}
use zerohttp_example.Store.Rules.{on_get_user_by_email, on_pure}
use zerohttp_example.Prog.Always.{Ensures}
use zerohttp_example.Handlers.Auth.{login, authenticate, generate_session_id, verify_password}

-- A stored user has the email and the password.
abbrev pub Knows : Platform → Db → LoginRequest → User → Type 0
Knows pf d req u =
    (d.users u.id ≡ some u)
    × (u.email ≡ req.email)
    × (pf.verify_encoded req.password u.password_hash ≡ true)

-- How `Login` ends on a request that has been bound.
abbrev pub Grants : Platform → LoginRequest → Db → Outcome → Type 0
Grants pf req d (rendered status (Http.login b)) =
    (status ≡ 200) × (u : User) × Knows pf d req u × (u.active ≡ true)
Grants pf req d (problem status detail) =
    ((status ≡ 401)
      × (((id : String) (u : User) → d.users id ≡ some u → ¬ (u.email ≡ req.email))
          ⊎ ((u : User) × (d.users u.id ≡ some u)
              × (u.email ≡ req.email)
              × (pf.verify_encoded req.password u.password_hash ≡ false))))
    ⊎ ((status ≡ 403) × (u : User) × Knows pf d req u × (u.active ≡ false))
    ⊎ ((status ≡ 500) × (u : User) × Knows pf d req u × (u.active ≡ true))
Grants pf req d (failed t) = Unit {0}
Grants pf req d (panicked t) = (u : User) × Knows pf d req u × (u.active ≡ true)
Grants pf req d o = ⊥

module _ (pf : Platform) (expires_in : ℤ) (req : LoginRequest) (d : Db) where
  -- `Login` gives tokens only for the email and the verified password of a stored, active user. An
  -- unknown email and a wrong password are both 401, a deactivated account is 403 and only with
  -- its password, a failed token generation is 500 and failed random bytes a panic. Nothing is
  -- changed.
  pub login-Grants : Ensures (login pf expires_in (ok req)) d λ o e. (e ≡ d) × Grants pf req d o
  unfolding login authenticate generate_session_id verify_password
  login-Grants =
      on_get_user_by_email _ (λ t. (refl, tt)) (λ free. (refl, inl (refl, inl free)))
        λ u h same. elim (Bool-cases (pf.verify_encoded req.password u.password_hash)) [
          | inr v ↦ rw v (refl, inl (refl, inr (u, h, same, v)))
          | inl v ↦ rw v (elim (Bool-cases u.active) [
            | inr a ↦ rw a (refl, inr (inl (refl, u, (h, same, v), a)))
            | inl a ↦
                let k : Knows pf d req u × (u.active ≡ true) = ((h, same, v), a) in
                rw a (
                  on_pure _ (elim [
                    | err s ↦ (refl, (u, k.0, k.1))
                    | ok sid ↦ on_pure _ (elim [
                      | err s ↦ (refl, (u, k.0, k.1))
                      | ok access_jti ↦ on_pure _ (elim [
                        | err s ↦ (refl, inr (inr (refl, u, k.0, k.1)))
                        | ok access ↦ on_pure _ (elim [
                          | err s ↦ (refl, (u, k.0, k.1))
                          | ok refresh_jti ↦ on_pure _ (elim [
                            | err s ↦ (refl, inr (inr (refl, u, k.0, k.1)))
                            | ok refresh ↦ (refl, (refl, u, k.0, k.1))
                          ])
                        ])
                      ])
                    ])
                  ]))
          ])
        ]
