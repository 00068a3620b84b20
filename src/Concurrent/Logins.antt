-- ===== src/Concurrent/Logins.antt =====
-- The accounts while the application serves any requests at the same time (app/server.go,
-- handlers/user.go).
use zerohttp_example.Base.{
  String, ◌≡◌, refl, sym, ap, subst, ◌∙◌, ◌⊎◌, inl, inr, Bool-cases, false, ◌==◌, some, none, List,
  All, some-injective,
}
use zerohttp_example.Base.Int.{ℤ}
use zerohttp_example.Http.{Request}
use zerohttp_example.Models.{User, Order, Time, Address, role_user, update, deactivate}
use zerohttp_example.Models.Platform.{Platform}
use zerohttp_example.Store.Spec.{Db, with_user, with_record, with_order, with_taken}
use zerohttp_example.Store.Keyed.{IsWellKeyed, StandsUnder, put-StandsUnder}
use zerohttp_example.App.Routes.{Route, Zerohttp, Binding, setup_routes}
use zerohttp_example.Concurrent.{Pool, Runs}
use zerohttp_example.Concurrent.Regime.{Regime}
use zerohttp_example.Concurrent.Regime.Upholds.{Upholds, Runs-Inv}
use zerohttp_example.Concurrent.Obeys.{any_count, any_request, Tolerates}
use zerohttp_example.Concurrent.Served.{any_request-Binds, IsPlain, served, served-Obeys}
use mathlib.Core.List.{Memᴰ}

-- `u` is the account `v` as far as logging in goes, and not active unless `v` is.
abbrev pub SameLogin : User → User → Type 0
SameLogin v u =
    (u.email ≡ v.email)
    × (u.password_hash ≡ v.password_hash)
    × (u.role ≡ v.role)
    × (v.active ≡ false → u.active ≡ false)

-- `u` is an account of `d`, or a new one of a plain user.
abbrev pub ComesFrom : Db → User → Type 0
ComesFrom d u =
    ((d.users u.id ≡ none) × (u.role ≡ role_user))
    ⊎ ((v : User) × (d.users u.id ≡ some v) × SameLogin v u)

-- Only accounts that come from `d` are saved.
abbrev coming_from : Db → Regime
coming_from d = record {
  IsNew = λ r. d.users r ≡ none;
  SeenUser = ComesFrom d;
  SavedUser = ComesFrom d;
  SeenRecord = λ x. Unit {0};
  SavedRecord = λ x. Unit {0};
  SeenOrder = λ o. Unit {0};
  SavedOrder = λ o. Unit {0};
  Taken = λ q. Unit {0};
}

module _ (d : Db) where
  update-ComesFrom :
      (u : User) (name : String) (address : Address) (t : Time)
      → ComesFrom d u
      → ComesFrom d (update u name address t)
  unfolding update
  update-ComesFrom u name address t h = h

  deactivate-ComesFrom : (u : User) (t : Time) → ComesFrom d u → ComesFrom d (deactivate u t)
  unfolding deactivate
  deactivate-ComesFrom u t (inl h) = inl h
  deactivate-ComesFrom u t (inr (v, h, (m, w, r, _))) = inr (v, h, (m, w, r, λ _. refl))

  coming_from-Tolerates : Tolerates (coming_from d) any_request
  coming_from-Tolerates = record {
    signed_up = λ u n r. inl (n, r);
    updated = update-ComesFrom;
    deactivated = deactivate-ComesFrom;
    recorded = λ base req f. tt;
    patched = λ pf x req has_body t f s. tt;
    archived = λ x t s. tt;
    stocked = λ x n t s. tt;
    taken = λ is f. any_count is;
    placed = λ o is new p named f c. tt;
    withdrawn = λ o t s p. tt;
  }

  -- Accounts stand under their ids, none of `d` is lost, and each comes from `d`.
  record Inv (e : Db) : Type 0 where
    keyed : StandsUnder (λ (u : User). u.id) e.users
    kept : (k : String) → e.users k ≡ none → d.users k ≡ none
    all : (k : String) (u : User) → e.users k ≡ some u → ComesFrom d u

  same_users-Inv : (e f : Db) → f.users ≡ e.users → Inv e → Inv f
  same_users-Inv e f same i = record {
    keyed = subst (StandsUnder (λ u. u.id)) (sym same) i.keyed;
    kept = λ k h. i.kept k (subst (λ t. t k ≡ none) same h);
    all = λ k u h. i.all k u (subst (λ t. t k ≡ some u) same h);
  }

  with_user-Inv : (e : Db) (u : User) → Inv e → ComesFrom d u → Inv (with_user e u)
  with_user-Inv e u i s = record {
    keyed = put-StandsUnder (λ x. x.id) e.users u.id u refl i.keyed;
    kept = λ k h. elim (Bool-cases (k == u.id)) [
      | inl same ↦ absurd (cc (rw same at h))
      | inr other ↦ i.kept k (rw other at h)
    ];
    all = λ k x h. elim (Bool-cases (k == u.id)) [
      | inl same ↦ subst (ComesFrom d) (some-injective u x (rw same at h)) s
      | inr other ↦ i.all k x (rw other at h)
    ];
  }

  coming_from-Upholds : Upholds (coming_from d) Inv
  coming_from-Upholds = record {
    new = λ e r i u o. i.kept r u;
    seen_user = λ e k u i h. i.all k u h;
    seen_order = λ e k o i h. tt;
    saved_user = λ e u i s. with_user-Inv e u i s;
    saved_order = λ e o i s. same_users-Inv e (with_order e o) refl i;
    seen_record = λ e k x i h. tt;
    saved_record = λ e x i s. same_users-Inv e (with_record e x) refl i;
    took = λ e k x q t i h. same_users-Inv e (with_taken e k x q t) refl i;
  }

  start-Inv : IsWellKeyed d → Inv d
  start-Inv w = record {
    keyed = w.users;
    kept = λ k h. h;
    all = λ k u h. inr (u, ap d.users (w.users k u h) ∙ h, (refl, refl, refl, λ off. off));
  }

module _ (pf : Platform) (z : Zerohttp) (b : Binding) (ttl : ℤ) (plain : IsPlain z) where
  -- No request changes who may log in as what, but by signing up and deactivating. While the
  -- application serves any requests to any of its routes at the same time, however their calls
  -- interleave and whichever of them fail: at every moment each account under an id that was taken at
  -- the beginning has the email, the password hash and the role that it had then, and if it was
  -- deactivated then it still is; and each account under another id has the role "user", so that no
  -- request makes an admin. Ids are keys at the beginning, and what zerohttp gives passes requests on
  -- and makes no call that writes anything.
  pub Runs-ComesFrom :
      (reqs : List (Route × Request)) {d e : Db} {qs : Pool} {log : List Order}
      → All (λ q. Memᴰ q.0 (setup_routes pf z b ttl)) reqs
      → IsWellKeyed d
      → Runs d (served reqs) e qs log
      → (k : String) (u : User) → e.users k ≡ some u
      → (u.id ≡ k) × ComesFrom d u
  Runs-ComesFrom reqs {d = d} m w r k u h =
      let i =
        (Runs-Inv (coming_from d) (Inv d) (coming_from-Upholds d) d (start-Inv d w)
          (served-Obeys (coming_from d) pf z b ttl plain (any_request-Binds b)
            (coming_from-Tolerates d) reqs m)
          r).1 in
      (i.keyed k u h, i.all k u h)
