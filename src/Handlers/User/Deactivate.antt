-- ===== src/Handlers/User/Deactivate.antt =====
-- `DeactivateUser` as a whole, and `Login` after it (handlers/user.go, handlers/auth.go).
use zerohttp_example.Base.{
  String, ◌≡◌, refl, ap, some-injective, sym, ◌∙◌, ◌⊎◌, inl, inr, Bool-cases, false, ◌==◌, none,
  some, ok, eq_iff,
}
use zerohttp_example.Base.Int.{ℤ}
use zerohttp_example.Http.{Request, Outcome, problem, failed, rendered, no_content}
use zerohttp_example.Http
use zerohttp_example.Models.{User, Time, deactivate}
use zerohttp_example.Models.Platform.{Platform}
use zerohttp_example.Api.{LoginRequest}
use zerohttp_example.Store.Spec.{Db, with_user}
use zerohttp_example.Store.Rules.{on_get_user, on_pure, on_write}
use zerohttp_example.Prog.Always.{Ensures, always_mono, outcome}
use zerohttp_example.Handlers.User.{deactivate_user}
use zerohttp_example.Handlers.User.Owner.{AreKeyed}
use zerohttp_example.Handlers.Auth.{login}
use zerohttp_example.Handlers.Auth.Grant.{Grants, login-Grants}

-- How `DeactivateUser` ends.
abbrev pub Deactivates : Request → Db → Outcome → Db → Type 0
Deactivates r d no_content e =
    (u : User) × (t : Time) × (d.users (r.path_value "id") ≡ some u)
    × (e ≡ with_user d (deactivate u t))
Deactivates r d (problem status detail) e =
    (e ≡ d)
    × (((status ≡ 400) × (r.path_value "id" ≡ ""))
        ⊎ ((status ≡ 404) × (d.users (r.path_value "id") ≡ none)))
Deactivates r d (failed t) e =
    (e ≡ d)
    ⊎ ((u : User) × (t : Time) × (d.users (r.path_value "id") ≡ some u)
        × (e ≡ with_user d (deactivate u t)))
Deactivates r d o e = ⊥

-- No two users have the same email.
abbrev pub AreDistinct : Db → Type 0
AreDistinct d =
    (i j : String) (u v : User)
    → d.users i ≡ some u
    → d.users j ≡ some v
    → u.email ≡ v.email
    → i ≡ j

-- The handler replied with a login.
abbrev pub IsLogin : Outcome → Type 0
IsLogin (rendered status (Http.login b)) = Unit {0}
IsLogin o = ⊥

-- After `no_content` no run of `Login` with the user's email gives tokens.
abbrev pub Shuts : Platform → ℤ → Request → Db → Outcome → Db → Type 0
Shuts pf ttl r d no_content e =
    (u : User) × (d.users (r.path_value "id") ≡ some u)
    × ((req : LoginRequest)
        → req.email ≡ u.email
        → Ensures (login pf ttl (ok req)) e λ o _. ¬ IsLogin o)
Shuts pf ttl r d o e = Unit {0}

module _ (r : Request) (d : Db) where
  -- `DeactivateUser` stores the user of the path as inactive, touched, and otherwise unchanged, and
  -- changes nothing else; an unknown user is 404 and an empty id 400, with nothing changed; a
  -- failed store call has made that one change or none.
  pub deactivate_user-Deactivates : Ensures (deactivate_user r) d (Deactivates r d)
  unfolding deactivate_user
  deactivate_user-Deactivates = elim (Bool-cases (r.path_value "id" == "")) [
    | inl e ↦ rw e (refl, inl (refl, (eq_iff _ _).0 e))
    | inr e ↦ rw e (
        on_get_user _ (λ t. inl refl) (λ h. (refl, inr (refl, h)))
          λ u h.
            on_pure _ λ t. on_write _ (λ s. inl refl) (λ s. inr (u, t, h, refl)) (u, t, h, refl))
  ]

  module _ (k : AreKeyed d) (distinct : AreDistinct d) where
    inactive :
        (u v : User) (t : Time)
        → d.users (r.path_value "id") ≡ some u
        → (with_user d (deactivate u t)).users v.id ≡ some v
        → v.email ≡ u.email
        → v.active ≡ false
    unfolding deactivate
    inactive u v t h s same = elim (Bool-cases (v.id == u.id)) [
      | inl e ↦
          let stored = rw e at s in
          sym (ap (λ w. w.active) (some-injective (deactivate u t) v stored))
      | inr e ↦
          let stored = rw e at s in
          let one : v.id ≡ u.id =
            distinct v.id (r.path_value "id") v u stored h same ∙ sym (k (r.path_value "id") u h) in
          absurd (cc ((eq_iff v.id u.id).1 one))
    ]

    refused :
        (pf : Platform) (ttl : ℤ) (req : LoginRequest) (u : User) (t : Time)
        → d.users (r.path_value "id") ≡ some u
        → req.email ≡ u.email
        → (o : Outcome) → Grants pf req (with_user d (deactivate u t)) o
        → ¬ IsLogin o
    refused pf ttl req u t h same (rendered status (Http.login b)) (_, v, (s, m, _), a) _ =
        let off = inactive u v t h s (m ∙ same) in cc off
    refused pf ttl req u t h same (rendered status (Http.user b)) g l = l
    refused pf ttl req u t h same (rendered status (Http.users b)) g l = l
    refused pf ttl req u t h same (rendered status (Http.record_body b)) g l = l
    refused pf ttl req u t h same (rendered status (Http.records b)) g l = l
    refused pf ttl req u t h same (rendered status (Http.order b)) g l = l
    refused pf ttl req u t h same (rendered status (Http.orders b)) g l = l
    refused pf ttl req u t h same (rendered status (Http.inventory b)) g l = l
    refused pf ttl req u t h same (rendered status (Http.restock b)) g l = l
    refused pf ttl req u t h same (problem _ _) g l = l
    refused pf ttl req u t h same (failed _) g l = l
    refused pf ttl req u t h same (Http.paged _ _ _ _) g l = l
    refused pf ttl req u t h same no_content g l = l
    refused pf ttl req u t h same (Http.panicked _) g l = l

    shut :
        (pf : Platform) (ttl : ℤ) (o : Outcome) (e : Db)
        → Deactivates r d o e
        → Shuts pf ttl r d o e
    shut pf ttl no_content e (u, t, h, same) = (
      u,
      h,
      λ req m. rw same (
          always_mono (login pf ttl (ok req)) (with_user d (deactivate u t)) _ _
            (λ f e' g. refused pf ttl req u t h m (outcome f) g.1)
            (login-Grants pf ttl req (with_user d (deactivate u t)))),
    )
    shut pf ttl (problem _ _) e g = tt
    shut pf ttl (failed _) e g = tt
    shut pf ttl (rendered _ _) e g = tt
    shut pf ttl (Http.paged _ _ _ _) e g = tt
    shut pf ttl (Http.panicked _) e g = tt

    -- After a deactivation that replied 204, `Login` with the email of that user gives no tokens,
    -- whatever the password; where users stand under their own ids and no two share an email.
    pub deactivate_user-Shuts :
        (pf : Platform) (ttl : ℤ) → Ensures (deactivate_user r) d (Shuts pf ttl r d)
    deactivate_user-Shuts pf ttl =
        always_mono (deactivate_user r) d _ _ (λ f e g. shut pf ttl (outcome f) e g)
          deactivate_user-Deactivates
