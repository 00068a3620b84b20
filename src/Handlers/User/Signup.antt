-- ===== src/Handlers/User/Signup.antt =====
-- `CreateUser` as a whole (handlers/user.go).
use zerohttp_example.Base.{String, ◌≡◌, refl, ◌⊎◌, inl, inr, true, none, some, ok, err}
use zerohttp_example.Http.{Outcome, rendered, problem, failed}
use zerohttp_example.Http
use zerohttp_example.Models.{User, empty_address, role_user}
use zerohttp_example.Models.New.{new_user, user_of_hash, new_base}
use zerohttp_example.Models.Platform.{Platform}
use zerohttp_example.Api.{CreateUserRequest, new_user_response}
use zerohttp_example.Store.Spec.{Db, with_user}
use zerohttp_example.Store.Rules.{on_get_user_by_email, on_new_xid, on_pure, on_write}
use zerohttp_example.Prog.Always.{Ensures}
use zerohttp_example.Handlers.User.{create_user, address_or}

-- No stored user has the email.
abbrev pub IsFree : Db → String → Type 0
IsFree d email = (id : String) (u : User) → d.users id ≡ some u → ¬ (u.email ≡ email)

-- `e` is `d` with the new account `u` for the request.
pub record IsSignedUp (req : CreateUserRequest) (d : Db) (u : User) (e : Db) : Type 0 where
  pub was_free : IsFree d req.email
  pub is_new : d.users u.id ≡ none
  pub stored : e ≡ with_user d u
  pub email : u.email ≡ req.email
  pub name : u.name ≡ req.name
  pub address : u.address ≡ address_or req.address empty_address
  pub is_user : u.role ≡ role_user
  pub is_active : u.active ≡ true

-- How `CreateUser` ends on a request that has been bound.
abbrev pub SignsUp : Platform → CreateUserRequest → Db → Outcome → Db → Type 0
SignsUp pf req d (rendered status b) e =
    (status ≡ 201) × (u : User) × (b ≡ Http.user (new_user_response pf u)) × IsSignedUp req d u e
SignsUp pf req d (problem status detail) e =
    (e ≡ d)
    × (((status ≡ 409) × (u : User) × (d.users u.id ≡ some u) × (u.email ≡ req.email))
        ⊎ ((status ≡ 500) × IsFree d req.email))
SignsUp pf req d (failed t) e = (e ≡ d) ⊎ ((u : User) × IsSignedUp req d u e)
SignsUp pf req d o e = ⊥

module _ (pf : Platform) (req : CreateUserRequest) (d : Db) where
  -- `CreateUser` stores a new active account of role "user" with the email, name and address
  -- asked for, under an id that no user has, and only if no stored user has the email; a taken email is 409
  -- and a failed hash 500, both with nothing changed; a failed store call has stored that account
  -- or changed nothing.
  pub create_user-SignsUp : Ensures (create_user pf (ok req)) d (SignsUp pf req d)
  unfolding create_user new_user user_of_hash new_base
  create_user-SignsUp =
      on_get_user_by_email _ (λ t. inl refl)
        (λ free. on_pure _ (elim [
          | err t ↦ (refl, inr (refl, free))
          | ok hash ↦ on_new_xid _ λ id fresh _ _ _. on_pure _ λ created. on_pure _ λ updated.
              let u : User = record {
                base = record {
                  id = id;
                  mongo_id = "";
                  created_at = created;
                  updated_at = updated;
                };
                email = req.email;
                name = req.name;
                password_hash = hash;
                address = address_or req.address empty_address;
                active = true;
                role = role_user;
              } in
              let signed : IsSignedUp req d u (with_user d u) = record {
                was_free = free;
                is_new = fresh;
                stored = refl;
                email = refl;
                name = refl;
                address = refl;
                is_user = refl;
                is_active = refl;
              } in
              on_write _ (λ s. inl refl) (λ s. inr (u, signed)) (refl, u, refl, signed)
        ]))
        (λ u h same. (refl, inl (refl, u, h, same)))
