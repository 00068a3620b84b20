-- ===== src/App/Keys.antt =====
-- `loadOrCreateKey` (app/keys.go). The libraries for keys and PEM and the files of the operating
-- system are parameters.
pub mod Reload
pub mod Broken
use zerohttp_example.Base.{String, concat, Option, none, some, Result, ok, err}

-- `pem.Block` without headers.
pub record Block (Bytes : Type 0) : Type 0 where
  pub type_ : String
  pub bytes : Bytes

-- crypto/ecdsa, crypto/x509, encoding/pem and jwk: `pem_encode` gives the text that `pem.Encode`
-- writes, `add_key` is `jwk.NewSet` with one `AddKey`.
pub record Crypto (Bytes Key Jwk KeySet : Type 0) : Type 0 where
  pub marshal : Key → Result Bytes
  pub parse : Bytes → Result Key
  pub pem_encode : Block Bytes → Bytes
  pub pem_decode : Bytes → Option (Block Bytes)
  pub import_key : Key → Result Jwk
  pub add_key : Jwk → Result KeySet

-- The calls of the operating system, and `ecdsa.GenerateKey` with its random source. `open_file`
-- has the flags O_WRONLY, O_CREATE and O_TRUNC and the mode 0600.
pub record System (W Bytes Key : Type 0) : Type 0 where
  pub stat : String → W → Result (Unit {0})
  pub read_file : String → W → Result Bytes
  pub open_file : String → W → Result (Unit {0}) × W
  pub write : String → Bytes → W → Result (Unit {0}) × W
  pub close : String → W → Result (Unit {0}) × W
  pub generate_key : W → Result Key × W

module _ {W Bytes Key Jwk KeySet : Type 0} (c : Crypto Bytes Key Jwk KeySet)
    (s : System W Bytes Key) (path : String) where
  unfoldable pub added : Result Jwk → Result KeySet
  added (err e) = err (concat "failed to import private key: " e)
  added (ok key) = elim (c.add_key key) [
    | err e ↦ err (concat "failed to add key to set: " e)
    | ok set ↦ ok set
  ]

  unfoldable pub parsed : Result Key → Result KeySet
  unfolding added
  parsed (err e) = err (concat "failed to parse EC private key: " e)
  parsed (ok key) = added (c.import_key key)

  unfoldable pub decoded : Option (Block Bytes) → Result KeySet
  unfolding parsed
  decoded none = err "failed to decode PEM block"
  decoded (some block) = parsed (c.parse block.bytes)

  -- The key of the file.
  unfoldable pub loaded : Result Bytes → Result KeySet
  unfolding decoded
  loaded (err e) = err (concat "failed to read private key file: " e)
  loaded (ok text) = decoded (c.pem_decode text)

  unfoldable pub closed : Key → Result (Unit {0}) × W → Result KeySet × W
  unfolding added
  closed key (err e, w) = (err (concat "failed to close key file: " e), w)
  closed key (ok _, w) = (added (c.import_key key), w)

  -- If the text has not been written, the file is closed and stays.
  unfoldable pub written : Key → Result (Unit {0}) × W → Result KeySet × W
  unfolding closed
  written key (err e, w) = (err (concat "failed to write key file: " e), (s.close path w).1)
  written key (ok _, w) = closed key (s.close path w)

  unfoldable pub opened : Key → Bytes → Result (Unit {0}) × W → Result KeySet × W
  unfolding written
  opened key text (err e, w) = (err (concat "failed to create key file: " e), w)
  opened key text (ok _, w) = written key (s.write path text w)

  unfoldable pub marshalled : Key → Result Bytes → W → Result KeySet × W
  unfolding opened
  marshalled key (err e) w = (err (concat "failed to marshal private key: " e), w)
  marshalled key (ok bytes) w =
      opened key (c.pem_encode (record { type_ = "EC PRIVATE KEY"; bytes = bytes }))
        (s.open_file path w)

  -- A new key, written to the file.
  unfoldable pub generated : Result Key × W → Result KeySet × W
  unfolding marshalled
  generated (err e, w) = (err (concat "failed to generate ECDSA key: " e), w)
  generated (ok key, w) = marshalled key (c.marshal key) w

  unfoldable pub by_stat : Result (Unit {0}) → W → Result KeySet × W
  unfolding loaded generated
  by_stat (ok _) w = (loaded (s.read_file path w), w)
  by_stat (err _) w = generated (s.generate_key w)

  unfoldable pub load_or_create_key : W → Result KeySet × W
  unfolding by_stat
  load_or_create_key w = by_stat (s.stat path w) w
