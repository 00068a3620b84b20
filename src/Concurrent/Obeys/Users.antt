-- ===== src/Concurrent/Obeys/Users.antt =====
-- The handlers that save users keep to the rules (handlers/user.go).
use zerohttp_example.Base.{refl, inl, inr, Bool-cases, ◌==◌, none, some, arith, Result, ok, err}
use zerohttp_example.Http.{Request}
use zerohttp_example.Models.{update, deactivate}
use zerohttp_example.Models.New.{new_base, new_user, user_of_hash}
use zerohttp_example.Models.Platform.{Platform}
use zerohttp_example.Api.{CreateUserRequest, UpdateUserRequest}
use zerohttp_example.Handlers.User.{create_user, update_user, deactivate_user}
use zerohttp_example.Concurrent.Regime.{Regime, Obeys, Spares-Obeys}
use zerohttp_example.Concurrent.Obeys.{Validity, Tolerates}

module _ (g : Regime) {v : Validity} (tol : Tolerates g v) where
  pub create_user-Obeys :
      (pf : Platform) (b : Result CreateUserRequest) → Obeys g (create_user pf b)
  unfolding create_user new_user user_of_hash new_base
  create_user-Obeys pf (err e) = tt
  create_user-Obeys pf (ok req) = elim [
    | err t ↦ λ s. tt
    | ok (some u) ↦ λ s. tt
    | ok none ↦ λ s. elim [
      | err t ↦ tt
      | ok hash ↦
          λ id new created updated. (tol.signed_up _ new refl, elim [ ok _ ↦ tt | err _ ↦ tt ])
    ]
  ]

  pub update_user-Obeys :
      (pf : Platform) (r : Request) (b : Result UpdateUserRequest) → Obeys g (update_user pf r b)
  unfolding update_user update
  update_user-Obeys pf r (err e) = Spares-Obeys g (update_user pf r (err e)) (ground arith)
  update_user-Obeys pf r (ok req) = elim (Bool-cases (r.path_value "id" == "")) [
    | inl e ↦ rw e tt
    | inr e ↦ rw e (elim [
      | err t ↦ λ s. tt
      | ok none ↦ λ s. tt
      | ok (some u) ↦ λ s t. (tol.updated u req.name _ t s, elim [ ok _ ↦ tt | err _ ↦ tt ])
    ])
  ]

  pub deactivate_user-Obeys : (r : Request) → Obeys g (deactivate_user r)
  unfolding deactivate_user deactivate
  deactivate_user-Obeys r = elim (Bool-cases (r.path_value "id" == "")) [
    | inl e ↦ rw e tt
    | inr e ↦ rw e (elim [
      | err t ↦ λ s. tt
      | ok none ↦ λ s. tt
      | ok (some u) ↦ λ s t. (tol.deactivated u t s, elim [ ok _ ↦ tt | err _ ↦ tt ])
    ])
  ]
