-- ===== src/App/Start.antt =====
-- `App.Start` up to the start of the server (app/app.go).
use zerohttp_example.Base.{
  ◌≡◌, refl, sym, subst, ◌∙◌, true, if◌then◌else◌, none, some, String, ok, err,
}
use zerohttp_example.Models.{User, empty_address, role_admin}
use zerohttp_example.Models.New.{new_user, user_of_hash, new_base}
use zerohttp_example.Models.Platform.{Platform}
use zerohttp_example.Store.Spec.{Db, put}
use zerohttp_example.Store.Rules.{on_get_user_by_email, on_new_xid, on_pure, on_write}
use zerohttp_example.Prog.{Prog, Flow, ran, stopped, ret, ◌>>◌}
use zerohttp_example.Prog.Succeeds.{Succeeds, NoErr, succeeds_seq, succeeds_mono}
use zerohttp_example.Config.{AppConfig}
use zerohttp_example.Mongo.Seed.{seeds, seed_data}
use zerohttp_example.Mongo.Seed.Resets.{Resets, IsReset, row_for, seed_data-Resets}
use zerohttp_example.App.Admin.{make_admin, create_default_admin}
use text.Mathlib.TextPositions.{eq_refl}

unfoldable pub start : Platform → AppConfig → Prog (Unit {0})
start pf cfg = do
  if cfg.seed_data then seed_data pf else ret tt
  if cfg.create_admin then create_default_admin cfg.admin_email cfg.admin_password else ret tt

-- A user has the email; records and orders are as they were.
abbrev HasAdmin : String → Db → Flow (Unit {0}) → Db → Type 0
HasAdmin email d (ran _) e =
    ((u : User) × (e.users u.id ≡ some u) × (u.email ≡ email))
    × (e.records ≡ d.records)
    × (e.orders ≡ d.orders)
HasAdmin email d (stopped o) e = ⊥

create_default_admin-HasAdmin :
    (email password : String) (d : Db)
    → Succeeds (create_default_admin email password) d (HasAdmin email d)
unfolding create_default_admin make_admin new_user user_of_hash new_base
create_default_admin-HasAdmin email password d =
    on_get_user_by_email (λ x m. NoErr x → _) (λ t. λ bad. absurd bad)
      (λ free. λ _.
        on_pure (λ x m. NoErr x → _)
          (elim [
            | err t ↦ λ bad. absurd bad
            | ok hash ↦ λ _.
                on_new_xid (λ x m. Unit {0} → _)
                  λ id fresh _ _ _. λ _.
                    on_pure (λ x m. Unit {0} → _)
                      λ created. λ _.
                        on_pure (λ x m. Unit {0} → _)
                          λ updated. λ _.
                            let u : User = record {
                              base = record {
                                id = id;
                                mongo_id = "";
                                created_at = created;
                                updated_at = updated;
                              };
                              email = email;
                              name = "Admin User";
                              password_hash = hash;
                              address = empty_address;
                              active = true;
                              role = role_admin;
                            } in
                            let there : put d.users id u id ≡ some u = rw (eq_refl id) refl in
                            on_write (λ x m. NoErr x → _) (λ s. λ bad. absurd bad)
                              (λ s. λ bad. absurd bad) (λ _. ((u, there, refl), refl, refl))
          ]))
      (λ u h same. λ _. ((u, h, same), refl, refl))

-- The database when the server starts with sample data and a default admin.
abbrev pub IsReady : Platform → AppConfig → Db → Flow (Unit {0}) → Db → Type 0
IsReady pf cfg d (ran _) e =
    ((j : String) → IsReset pf (row_for seeds j none) (d.records j) (e.records j))
    × ((u : User) × (e.users u.id ≡ some u) × (u.email ≡ cfg.admin_email))
    × (e.orders ≡ d.orders)
IsReady pf cfg d (stopped o) e = ⊥

-- A restart with sample data and a default admin runs through, if no store call and no hash fails:
-- each record of the sample data is back at the stock of its row, whatever has been sold since, all
-- other records and all orders are as they were, and a user has the admin's email.
pub start-IsReady :
    (pf : Platform) (cfg : AppConfig) (d : Db)
    → cfg.seed_data ≡ true
    → cfg.create_admin ≡ true
    → Succeeds (start pf cfg) d (IsReady pf cfg d)
unfolding start
start-IsReady pf cfg d s a =
    rw (s, a)
      (succeeds_seq (seed_data pf) _ d (Resets pf d) _ (seed_data-Resets pf d) (elim [
        | ran _ ↦ λ e h.
            succeeds_mono (create_default_admin cfg.admin_email cfg.admin_password) e
              (HasAdmin cfg.admin_email e) (IsReady pf cfg d)
              (elim [
                | ran _ ↦ λ e' g. (
                  subst (λ t. (j : String) → IsReset pf (row_for seeds j none) (d.records j) (t j))
                      (sym g.1) h.0,
                  g.0,
                  g.2 ∙ h.2,
                )
                | stopped o ↦ λ e' g. g
              ])
              (create_default_admin-HasAdmin cfg.admin_email cfg.admin_password e)
        | stopped o ↦ λ e h. absurd h
      ]))
