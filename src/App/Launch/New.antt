-- ===== src/App/Launch/New.antt =====
-- What `New` has done when it succeeds, and why it fails (app/app.go, app/server.go).
use zerohttp_example.Base.{
  String, ◌⊎◌, inl, inr, true, false, Option, none, some, ◌≡◌, refl, ap, subst, sym, Result, ok,
  err,
}
use zerohttp_example.Config.{Config, RedisConfig}
use zerohttp_example.Mongo.Connect.{Client, Handles, new_mongo_store}
use zerohttp_example.Mongo.Unique.{MakesIndexes, IsUnique, new_mongo_store-IsUnique}
use zerohttp_example.App.Keys.{Crypto, System, load_or_create_key}
use zerohttp_example.App.Launch.Steps.{
  IsErr, Launched, launch_then-Launched, Launched-beside, or_fatal-Launched, if-Launched,
  call-Launched,
}
use zerohttp_example.App.Setup.{
  or_fatal, Outside, JwtSetup, setup_tracer, setup_redis_storage, setup_idempotency_config,
}
use zerohttp_example.App.Launch.{App, setup_jwt_config, with_keys, new_server, with_store, new_app}

-- The tracer is not enabled, or its exporter has been made.
abbrev pub Exports : {R : Type 0} → Outside R → Config → Type 0
Exports {R = R} out cfg =
    (cfg.tracer.enabled ≡ false)
    ⊎ ((q : R) × ((out.new_tracer cfg.app.name cfg.tracer.endpoint cfg.tracer.insecure q).0
          ≡ ok tt))

module _ {S R Bytes Key Jwk KeySet : Type 0} (out : Outside R) (client : Client S)
    (crypto : Crypto Bytes Key Jwk KeySet) (system : System R Bytes Key) (cfg : Config) where
  -- The exporter of the tracer is there if it is enabled, Redis has answered, the idempotency store is
  -- made, and the key set is that of the key file.
  abbrev pub HasKeys : App KeySet → R → Type 0
  HasKeys app r =
      (app.cfg ≡ cfg)
      × Exports out cfg
      × ((q : R) × ((out.redis_ping cfg.redis.addr q).0 ≡ ok tt))
      × ((q : R) × ((out.new_storage_adapter cfg.redis q).0 ≡ ok tt))
      × ((q : R) × (load_or_create_key crypto system cfg.jwt.private_key_path q
            ≡ (ok app.jwt.key_set, r)))

  with_keys-key_set :
      (storage : RedisConfig) (x : Result KeySet × R) (j : JwtSetup KeySet)
      → (with_keys out client crypto system storage cfg x).0 ≡ ok j
      → x ≡ (ok j.key_set, (with_keys out client crypto system storage cfg x).1)
  with_keys-key_set storage (ok set, r) j h =
      let same : set ≡ j.key_set =
        ap {B = KeySet} (λ x. elim x [ ok k ↦ k.key_set | err e ↦ set ]) h in
      ap {B = Result KeySet × R} (λ k. (ok k, r)) same
  with_keys-key_set storage (err e, r) j h = absurd (cc h)

  -- The steps after the store that can end the process, each with its line.
  abbrev pub Broken : String → Type 0
  Broken e =
      ((e ≡ "Failed to create tracer")
        × (cfg.tracer.enabled ≡ true)
        × (q : R) × IsErr (out.new_tracer cfg.app.name cfg.tracer.endpoint cfg.tracer.insecure q).0)
      ⊎ ((e ≡ "Failed to connect to Redis") × (q : R) × IsErr (out.redis_ping cfg.redis.addr q).0)
      ⊎ ((e ≡ "Failed to create idempotency store")
          × (q : R) × IsErr (out.new_storage_adapter cfg.redis q).0)
      ⊎ ((e ≡ "Failed to setup JWT config")
          × (q : R) × IsErr (load_or_create_key crypto system cfg.jwt.private_key_path q).0)

  -- The same, and the error of `New`, which the opening of the store `opened` has given.
  abbrev pub Fails : Result Handles → Option String → Type 0
  Fails opened none = IsErr opened
  Fails opened (some e) = Broken e

  with_keys-IsErr :
      (storage : RedisConfig) (x : Result KeySet × R)
      → IsErr (with_keys out client crypto system storage cfg x).0
      → IsErr x.0
  with_keys-IsErr storage (ok set, r) h = absurd h
  with_keys-IsErr storage (err e, r) h = tt

  module _ (opened : Result Handles) where
    setup_tracer-Launched :
        (r : R) → Launched (Fails opened) (λ _ _. Exports out cfg) (setup_tracer out cfg r)
    unfolding setup_tracer
    setup_tracer-Launched r =
        let call = out.new_tracer cfg.app.name cfg.tracer.endpoint cfg.tracer.insecure r in
        if-Launched (Fails opened) (λ _ _. Exports out cfg) cfg.tracer.enabled _ _
          (λ e.
            call-Launched (Fails opened) (λ _ _. Exports out cfg) "Failed to create tracer" call
              true (λ made. inr (r, made)) (λ bad. inl (refl, e, r, bad)))
          (λ e. inl e)

    setup_redis_storage-Launched :
        (r : R)
        → Launched
            (Fails opened)
            (λ redis _.
              (redis ≡ cfg.redis) × ((q : R) × ((out.redis_ping cfg.redis.addr q).0 ≡ ok tt)))
            (setup_redis_storage out cfg.redis r)
    unfolding setup_redis_storage
    setup_redis_storage-Launched r =
        call-Launched (Fails opened) _ _ (out.redis_ping cfg.redis.addr r) cfg.redis
          (λ h. (refl, (r, h))) (λ bad. inr (inl (refl, r, bad)))

    setup_idempotency_config-Launched :
        (r : R) (redis : RedisConfig)
        → redis ≡ cfg.redis
        → Launched
            (Fails opened)
            (λ _ _. (q : R) × ((out.new_storage_adapter cfg.redis q).0 ≡ ok tt))
            (setup_idempotency_config out redis r)
    unfolding setup_idempotency_config
    setup_idempotency_config-Launched r redis same =
        call-Launched (Fails opened)
          (λ _ _. (q : R) × ((out.new_storage_adapter cfg.redis q).0 ≡ ok tt)) _
          (out.new_storage_adapter redis r) _
          (λ made. (r, subst (λ c. (out.new_storage_adapter c r).0 ≡ ok tt) same made))
          (λ bad.
            inr (inr (inl (refl, r, subst (λ c. IsErr (out.new_storage_adapter c r).0) same bad))))

    setup_jwt_config-Launched :
        (redis : RedisConfig) (r : R)
        → Launched
            (Fails opened)
            (λ j v.
              (q : R) × (load_or_create_key crypto system cfg.jwt.private_key_path q
                ≡ (ok j.key_set, v)))
            (or_fatal "Failed to setup JWT config"
              (setup_jwt_config out client crypto system redis cfg r))
    unfolding setup_jwt_config
    setup_jwt_config-Launched redis r =
        or_fatal-Launched (Fails opened) _ _
          (with_keys out client crypto system redis cfg
            (load_or_create_key crypto system cfg.jwt.private_key_path r))
          (λ j h. (r, with_keys-key_set redis _ j h))
          (λ bad. inr (inr (inr (refl, r, with_keys-IsErr redis _ bad))))

    new_server-HasKeys :
        (store : Handles) (r : R)
        → Launched
            (Fails opened)
            (λ app q. HasKeys app q × (app.store ≡ store))
            (new_server out client crypto system cfg store r)
    unfolding new_server
    new_server-HasKeys store r =
        launch_then-Launched (Fails opened) _ _ (setup_tracer out cfg r) _ (setup_tracer-Launched r)
          λ traced r exports.
            launch_then-Launched (Fails opened) _ _ (setup_redis_storage out cfg.redis r) _
              (setup_redis_storage-Launched r)
              λ redis r pinged.
                launch_then-Launched (Fails opened) _ _ (setup_idempotency_config out redis r) _
                  (setup_idempotency_config-Launched r redis pinged.0)
                  λ idempotency r made.
                    launch_then-Launched (Fails opened) _ _
                      (or_fatal "Failed to setup JWT config"
                        (setup_jwt_config out client crypto system redis cfg r))
                      _ (setup_jwt_config-Launched redis r)
                      λ j v k. ((refl, exports, pinged.1, made, k), refl)

  with_store-Launched :
      (m : MakesIndexes client) (r : R) (x : Result Handles × S)
      → ((h : Handles) → x.0 ≡ ok h → IsUnique client m cfg.mongo.database h x.1)
      → Launched
          (Fails x.0)
          (λ app v. HasKeys app v.1 × IsUnique client m cfg.mongo.database app.store v.0)
          (with_store out client crypto system cfg x r)
  with_store-Launched m r (err e, s) u = tt
  with_store-Launched m r (ok store, s) u =
      Launched-beside (Fails (ok store)) _ _ (new_server out client crypto system cfg store r) s
        (λ app q h.
          (h.0, subst (λ n. IsUnique client m cfg.mongo.database n s) (sym h.1) (u store refl)))
        (new_server-HasKeys (ok store) store r)

  pub new_app-Launched :
      (m : MakesIndexes client) (s : S) (r : R)
      → Launched
          (Fails (new_mongo_store client cfg.mongo.uri cfg.mongo.database s).0)
          (λ app v. HasKeys app v.1 × IsUnique client m cfg.mongo.database app.store v.0)
          (new_app out client crypto system cfg (s, r))
  unfolding new_app
  new_app-Launched m s r =
      with_store-Launched m r (new_mongo_store client cfg.mongo.uri cfg.mongo.database s)
        (new_mongo_store-IsUnique client m cfg.mongo.uri cfg.mongo.database s)
