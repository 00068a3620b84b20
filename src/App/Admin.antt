-- ===== src/App/Admin.antt =====
-- `createDefaultAdmin` (app/app.go).
use zerohttp_example.Base.{String, ◌≡◌, refl, ◌⊎◌, inl, inr, true, Option, none, some, ok, err}
use zerohttp_example.Http.{failed}
use zerohttp_example.Models.{User, empty_address, role_admin}
use zerohttp_example.Models.New.{new_user, user_of_hash, new_base}
use zerohttp_example.Store.{get_user_by_email, save_user}
use zerohttp_example.Store.Spec.{Db, with_user}
use zerohttp_example.Store.Rules.{on_get_user_by_email, on_new_xid, on_pure, on_write}
use zerohttp_example.Prog.{Prog, Flow, ran, stopped, ret, ask, try, ◌>>=◌}
use zerohttp_example.Prog.Always.{Always}

-- What `createDefaultAdmin` does once it knows whether the email is taken; a logged message is no
-- step.
unfoldable pub make_admin : String → String → Option User → Prog (Unit {0})
unfolding new_user
make_admin email password (some u) = ret tt
make_admin email password none = do
  admin ←
      try
        (← new_user (record {
          email = email;
          name = "Admin User";
          password = password;
          role = role_admin;
          address = empty_address;
        }))
  try (← ask (save_user admin))

unfoldable pub create_default_admin : String → String → Prog (Unit {0})
unfolding make_admin
create_default_admin email password = do
  exists ← try (← ask (get_user_by_email email))
  make_admin email password exists

-- `e` is `d` with the new account `u` of the administrator.
pub record IsAdminMade (email : String) (d : Db) (u : User) (e : Db) : Type 0 where
  pub was_free : (id : String) (v : User) → d.users id ≡ some v → ¬ (v.email ≡ email)
  pub is_new : d.users u.id ≡ none
  pub stored : e ≡ with_user d u
  pub has_email : u.email ≡ email
  pub is_admin : u.role ≡ role_admin
  pub is_active : u.active ≡ true

-- How `createDefaultAdmin` ends.
abbrev pub MakesAdmin : String → Db → Flow (Unit {0}) → Db → Type 0
MakesAdmin email d (ran _) e =
    ((u : User) × (d.users u.id ≡ some u) × (u.email ≡ email) × (e ≡ d))
    ⊎ ((u : User) × IsAdminMade email d u e)
MakesAdmin email d (stopped (failed t)) e = (e ≡ d) ⊎ ((u : User) × IsAdminMade email d u e)
MakesAdmin email d (stopped o) e = ⊥

module _ (email password : String) (d : Db) where
  -- `createDefaultAdmin` leaves everything as it is if a stored user has the email of the admin,
  -- whatever the role of that user, and else stores one new active user with that email and the
  -- role "admin" under an id that no user has; if it fails it has made that one change or none.
  pub create_default_admin-MakesAdmin :
      Always (create_default_admin email password) d (MakesAdmin email d)
  unfolding create_default_admin make_admin new_user user_of_hash new_base
  create_default_admin-MakesAdmin =
      on_get_user_by_email _ (λ t. inl refl)
        (λ free. on_pure _ (elim [
          | err t ↦ inl refl
          | ok hash ↦ on_new_xid _ λ id fresh _ _ _. on_pure _ λ created. on_pure _ λ updated.
              let u : User = record {
                base = record {
                  id = id;
                  mongo_id = "";
                  created_at = created;
                  updated_at = updated;
                };
                email = email;
                name = "Admin User";
                password_hash = hash;
                address = empty_address;
                active = true;
                role = role_admin;
              } in
              let made : IsAdminMade email d u (with_user d u) = record {
                was_free = free;
                is_new = fresh;
                stored = refl;
                has_email = refl;
                is_admin = refl;
                is_active = refl;
              } in
              on_write _ (λ s. inl refl) (λ s. inr (u, made)) (inr (u, made))
        ]))
        (λ u h same. inl (u, h, same, refl))
