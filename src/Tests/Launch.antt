-- ===== src/Tests/Launch.antt =====
-- `main` at concrete inputs: a server without sample data and default admin.
use zerohttp_example.Base.{
  ◌≡◌, ◌==◌, String, Bool, true, false, refl, Option, none, List, [], ◌∷◌, Result, ok, err,
}
use zerohttp_example.Base.Int.{pos}
use zerohttp_example.Config.{Config}
use zerohttp_example.Config.Flags.{Flag}
use zerohttp_example.Config.Load.{load, after_flags, unmarshalled}
use zerohttp_example.Store
use zerohttp_example.Prog.Run.{Server}
use zerohttp_example.Mongo.{failed, Collection, MongoStore}
use zerohttp_example.App.Keys.{load_or_create_key}
use zerohttp_example.App.Start.{start}
use zerohttp_example.Mongo.Connect.{new_mongo_store, create_indexes}
use zerohttp_example.App.Setup.{
  Outside, setup_tracer, setup_redis_storage, setup_idempotency_config,
}
use zerohttp_example.App.Launch.Stop.{
  Event, sigterm, listener_returned, notified, shutdown_returned, process,
}
use zerohttp_example.App.Launch.Stop.Ends.{EndsFrom, process-Ends}
use zerohttp_example.App.Launch.{
  App, main, Exit, serving, exits, new_app, new_server, setup_jwt_config,
}
use zerohttp_example.App.Launch.Ready.{Serves, main-Serves}
use zerohttp_example.Tests.Fixtures.{platform}
use zerohttp_example.Tests.Setup.{
  crypto, crypto-IsInvertible, one_file, one_file-KeepsFiles, Index, client, client-MakesIndexes,
}

abbrev redis : Outside (Option (List String))
redis = record {
  new_tracer = λ name endpoint insecure r. (ok tt, r);
  redis_ping = λ addr r. (ok tt, r);
  new_storage_adapter = λ storage r. (ok tt, r);
  shutdown_tracer = λ r. r;
}

-- Nothing is looked up before the server serves.
abbrev untouched : {A : Type 0} → Collection (List Index) A
untouched = record {
  find_one = λ q w. (failed "untouched", w);
  replace_one = λ q a w. (err "untouched", w);
  count_documents = λ q w. (ok (pos 0), w);
  find = λ q o w. (err "untouched", w);
  find_one_and_update = λ q u w. (failed "untouched", w);
}

abbrev store : MongoStore (List Index)
store = record { users = untouched; records = untouched; orders = untouched }

abbrev silent : Server (List Index)
silent Store.now w = (0, w)
silent Store.new_xid w = ("x", w)
silent (Store.get_user _) w = (err "silent", w)
silent (Store.save_user _) w = (err "silent", w)
silent (Store.get_user_by_email _) w = (err "silent", w)
silent (Store.get_all_users _) w = (err "silent", w)
silent (Store.get_record _) w = (err "silent", w)
silent (Store.save_record _) w = (err "silent", w)
silent Store.get_all_records w = (err "silent", w)
silent (Store.get_filtered_records _) w = (err "silent", w)
silent (Store.decrement_stock _ _) w = (err "silent", w)
silent (Store.get_order _) w = (err "silent", w)
silent (Store.save_order _) w = (err "silent", w)
silent (Store.get_orders_by_user _) w = (err "silent", w)
silent (Store.get_all_orders _) w = (err "silent", w)
silent (Store.read_random _) w = (err "silent", w)
silent (Store.hash_encoded _) w = (err "silent", w)
silent (Store.generate_access_token _) w = (err "silent", w)
silent (Store.generate_refresh_token _) w = (err "silent", w)

-- `--seed-data=false --create-admin=false`.
abbrev parse_bare : List Flag → List String → Config → Result Config
parse_bare fs args c =
    ok (record c { app = record c.app { seed_data = false; create_admin = false } })

main-Serves_example :
    Serves redis client crypto one_file
      (λ h. store)
      platform
      silent
      client-MakesIndexes
      (load parse_bare ok ("--seed-data=false" ∷ "--create-admin=false" ∷ []))
      []
      (main redis client crypto one_file
        (λ h. store)
        platform
        silent
        parse_bare
        ok
        ("--seed-data=false" ∷ "--create-admin=false" ∷ [])
        ([], none))
main-Serves_example =
    main-Serves redis client crypto one_file (λ h. store) platform silent client-MakesIndexes
      crypto-IsInvertible one_file-KeepsFiles [] parse_bare ok
      ("--seed-data=false" ∷ "--create-admin=false" ∷ []) none

abbrev is_serving : {A W : Type 0} → Exit A × W → Bool
is_serving (serving a, w) = true
is_serving (exits e, w) = false

main_serves :
    is_serving
      (main redis client crypto one_file (λ h. store) platform silent parse_bare ok [] ([], none))
    ≡ true
unfolding main load after_flags unmarshalled new_app new_mongo_store create_indexes new_server
    setup_tracer setup_redis_storage setup_idempotency_config setup_jwt_config load_or_create_key
    start
main_serves = refl

-- The process that serves gets SIGTERM and shuts down.
abbrev served : Exit (App String)
served =
    (main redis client crypto one_file (λ h. store) platform silent parse_bare ok [] ([], none)).0

abbrev terminated : List Event
terminated = notified sigterm ∷ listener_returned (err "closed") ∷ shutdown_returned (ok tt) ∷ []

process-Ends_example :
    EndsFrom (λ e. e == "closed") served (process (λ e. e == "closed") served terminated) terminated
process-Ends_example = process-Ends (λ e. e == "closed") served terminated
