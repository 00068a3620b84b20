-- ===== src/Tests/World.antt =====
-- A server for the tests: the collections of Tests/Mongo, and ids longer than all in use.
use zerohttp_example.Base.{
  ℕ, zero, suc, ◌+◌, ◌<◌, String, ◌≡◌, refl, subst, sym, Bool-cases, ◌==◌, inl, inr, none, ok, err,
  arith, eq_iff, ap, concat,
}
use zerohttp_example.Base.Int.{pos}
use zerohttp_example.Models.{Record}
use zerohttp_example.Store
use zerohttp_example.Store.{Call, Reply}
use zerohttp_example.Store.Spec.{Table, Db, put, with_user, with_record, with_order}
use zerohttp_example.Prog.Run.{Server}
use zerohttp_example.Mongo.{Single, decoded, no_documents, failed, Update, Collection, MongoStore}
use zerohttp_example.Mongo.Queries.{Query}
use zerohttp_example.Mongo.Driver.{
  Behaves, Updates, UpdatesOne, user_fields, record_fields, order_fields,
}
use zerohttp_example.Mongo.Serve.{Complements}
use zerohttp_example.Tests.Fixtures.{platform, shop, alice, blue, moon, placed_order}
use zerohttp_example.Tests.Mongo.{
  server, users-Behaves, records-Behaves, orders-Behaves, update_one, update_one-Updates,
}
use Prim.Native.String.{count}
use text.Mathlib.TextLemmas.{length-append}

abbrev pub IsAbsent : Db → String → Type 0
IsAbsent d k = (d.users k ≡ none) × (d.records k ≡ none) × (d.orders k ≡ none)

-- A database and a length that no id in it exceeds.
pub record World : Type 0 where
  pub db : Db
  pub bound : ℕ
  pub beyond : (k : String) → bound < count k → IsAbsent db k

pub put-IsAbsent :
    {A : Type 0} (t : Table A) (j : String) (a : A) (k : String) (n : ℕ)
    → n + count j < count k
    → t k ≡ none
    → put t j a k ≡ none
put-IsAbsent t j a k n h e = elim (Bool-cases (k == j)) [
  | inl s ↦ absurd (omega (arith, h, ap count ((eq_iff k j).0 s)))
  | inr s ↦ rw s e
]

IsAbsent-take :
    (d : Db) (q : Query) (u : Update) (e : Db)
    → UpdatesOne platform.float_gt d q u e
    → (k : String) → IsAbsent d k
    → IsAbsent e k
IsAbsent-take d q u e (r, h, _, same) k m =
    subst (λ b. IsAbsent b k) (sym same)
      (
        m.0,
        (elim (Bool-cases (k == r.id)) [
          | inl s ↦ absurd (cc (h, m.1, (eq_iff k r.id).0 s))
          | inr s ↦ rw s m.1
        ]),
        m.2,
      )

pub IsAbsent-update :
    (d : Db) (q : Query) (u : Update) (a : Single Record) (e : Db)
    → Updates platform.float_gt d q u a e
    → (k : String) → IsAbsent d k
    → IsAbsent e k
IsAbsent-update d q u (decoded x) e h k m = IsAbsent-take d q u e h k m
IsAbsent-update d q u no_documents e h k m = subst (λ b. IsAbsent b k) (sym h.1) m
IsAbsent-update d q u (failed t) e (inl h) k m = subst (λ b. IsAbsent b k) (sym h) m
IsAbsent-update d q u (failed t) e (inr h) k m = IsAbsent-take d q u e h k m

abbrev pub updated_world :
    (w : World) (q : Query) (u : Update) (a : Single Record) (e : Db)
    → Updates platform.float_gt w.db q u a e
    → World
updated_world w q u a e h = record {
  db = e;
  bound = w.bound;
  beyond = λ k n. IsAbsent-update w.db q u a e h k (w.beyond k n);
}

-- The collection, in a world.
abbrev pub raised :
    {A : Type 0}
    → Collection Db A
    → (insert : Db → A → Db) (id_of : A → String)
    → ((d : Db) (a : A) (k : String) (n : ℕ)
        → n + count (id_of a) < count k
        → IsAbsent d k
        → IsAbsent (insert d a) k)
    → Collection World A
raised c insert id_of keeps = record {
  find_one = λ q w. ((c.find_one q w.db).0, w);
  replace_one = λ q a w. (
    ok tt,
    record {
      db = insert w.db a;
      bound = w.bound + count (id_of a);
      beyond = λ k n. keeps w.db a k w.bound n (w.beyond k (omega (arith, n)));
    },
  );
  count_documents = λ q w. (ok (pos 0), w);
  find = λ q o w. (err "no index", w);
  find_one_and_update = λ q u w. (failed "read only", w);
}

abbrev pub world_server : MongoStore World
world_server = record {
  users =
      raised server.users with_user (λ u. u.id)
        λ d a k n h m. (put-IsAbsent d.users a.id a k n h m.0, m.1, m.2);
  records =
      record (raised server.records with_record (λ u. u.id)
        λ d a k n h m. (m.0, put-IsAbsent d.records a.id a k n h m.1, m.2)) {
          find_one_and_update = λ q u w.
              let a = update_one q u w.db in
              (a.0, updated_world w q u a.0 a.1 (update_one-Updates q u w.db));
        };
  orders =
      raised server.orders with_order (λ u. u.id)
        λ d a k n h m. (m.0, m.1, put-IsAbsent d.orders a.id a k n h m.2);
}

unfoldable pub fresh_id : ℕ → String
fresh_id zero = "x"
fresh_id (suc n) = concat "x" (fresh_id n)

fresh_id_long : (n : ℕ) → n < count (fresh_id n)
unfolding fresh_id
fresh_id_long zero = omega arith
fresh_id_long (suc n) = omega (arith, length-append "x" (fresh_id n), fresh_id_long n)

abbrev pub outside : Server World
outside Store.new_xid w = (fresh_id w.bound, w)
outside Store.now w = (7, w)
outside (Store.get_user _) w = (err "not here", w)
outside (Store.save_user _) w = (err "not here", w)
outside (Store.get_user_by_email _) w = (err "not here", w)
outside (Store.get_all_users _) w = (err "not here", w)
outside (Store.get_record _) w = (err "not here", w)
outside (Store.save_record _) w = (err "not here", w)
outside Store.get_all_records w = (err "not here", w)
outside (Store.get_filtered_records _) w = (err "not here", w)
outside (Store.decrement_stock _ _) w = (err "not here", w)
outside (Store.get_order _) w = (err "not here", w)
outside (Store.save_order _) w = (err "not here", w)
outside (Store.get_orders_by_user _) w = (err "not here", w)
outside (Store.get_all_orders _) w = (err "not here", w)
outside (Store.read_random _) w = (err "not here", w)
outside (Store.hash_encoded _) w = (err "not here", w)
outside (Store.generate_access_token _) w = (err "not here", w)
outside (Store.generate_refresh_token _) w = (err "not here", w)

pub outside-Complements : Complements world_server platform (λ w. w.db) outside
unfolding fresh_id
outside-Complements (Store.get_user _) t w h = refl
outside-Complements (Store.save_user _) t w h = inl refl
outside-Complements (Store.get_user_by_email _) t w h = refl
outside-Complements (Store.get_all_users _) t w h = refl
outside-Complements (Store.get_record _) t w h = refl
outside-Complements (Store.save_record _) t w h = inl refl
outside-Complements Store.get_all_records t w h = refl
outside-Complements (Store.get_filtered_records _) t w h = refl
outside-Complements (Store.decrement_stock _ _) t w h = inl refl
outside-Complements (Store.get_order _) t w h = refl
outside-Complements (Store.save_order _) t w h = inl refl
outside-Complements (Store.get_orders_by_user _) t w h = refl
outside-Complements (Store.get_all_orders _) t w h = refl
outside-Complements (Store.read_random _) t w h = refl
outside-Complements (Store.hash_encoded _) t w h = refl
outside-Complements (Store.generate_access_token _) t w h = refl
outside-Complements (Store.generate_refresh_token _) t w h = refl
outside-Complements Store.now t w h = refl
outside-Complements Store.new_xid t w h =
    let m = w.beyond (fresh_id w.bound) (fresh_id_long w.bound) in
    (m.0, m.1, m.2, refl, λ e. absurd (omega (arith, fresh_id_long w.bound, ap count e)))

pub users-Serve :
    Behaves user_fields platform.float_gt world_server.users
      (λ w. w.db)
      (λ d. d.users)
      with_user
      (λ u. u.id)
users-Serve = record {
  finds_one = λ q w. ((users-Behaves.finds_one q w.db).0, refl);
  finds = λ q o w. refl;
  counts = λ q w. refl;
  replaces = λ q a w h. refl;
}

pub records-Serve :
    Behaves record_fields platform.float_gt world_server.records
      (λ w. w.db)
      (λ d. d.records)
      with_record
      (λ r. r.id)
records-Serve = record {
  finds_one = λ q w. ((records-Behaves.finds_one q w.db).0, refl);
  finds = λ q o w. refl;
  counts = λ q w. refl;
  replaces = λ q a w h. refl;
}

pub orders-Serve :
    Behaves order_fields platform.float_gt world_server.orders
      (λ w. w.db)
      (λ d. d.orders)
      with_order
      (λ o. o.id)
orders-Serve = record {
  finds_one = λ q w. ((orders-Behaves.finds_one q w.db).0, refl);
  finds = λ q o w. refl;
  counts = λ q w. refl;
  replaces = λ q a w h. refl;
}

abbrev pub open_shop : World
open_shop = record {
  db = shop;
  bound = 5;
  beyond = λ k h. (
    put-IsAbsent (λ _. none) "alice" alice k 0 h refl,
    put-IsAbsent (put (λ _. none) "moon" moon) "blue" blue k 1 h
        (put-IsAbsent (λ _. none) "moon" moon k 1 h refl),
    put-IsAbsent (λ _. none) "o1" placed_order k 3 h refl,
  );
}
