-- ===== src/App/Keys/Reload.antt =====
-- A key set that has been given is given again after a restart (app/keys.go).
use zerohttp_example.Base.{String, ◌≡◌, refl, ap, ◌∙◌, Option, some, Result, ok, err}
use zerohttp_example.App.Keys.{
  Block, Crypto, System, added, parsed, decoded, loaded, closed, written, opened, marshalled,
  generated, by_stat, load_or_create_key,
}

-- The documented behaviour of files: `content` is what a file holds.
pub record KeepsFiles {W Bytes Key : Type 0} (s : System W Bytes Key) (path : String) : Type 0 where
  pub content : W → Option Bytes
  pub empty : Bytes
  pub opens : (w : W) → (s.open_file path w).0 ≡ ok tt → content (s.open_file path w).1 ≡ some empty
  pub writes :
      (text : Bytes) (w : W)
      → content w ≡ some empty
      → (s.write path text w).0 ≡ ok tt
      → content (s.write path text w).1 ≡ some text
  pub closes : (w : W) → content (s.close path w).1 ≡ content w
  pub reads : (text : Bytes) (w : W) → content w ≡ some text → s.read_file path w ≡ ok text
  pub stats : (text : Bytes) (w : W) → content w ≡ some text → s.stat path w ≡ ok tt

-- Encoding and decoding are inverse, for PEM and for the keys.
pub record IsInvertible {Bytes Key Jwk KeySet : Type 0} (c : Crypto Bytes Key Jwk KeySet)
    : Type 0 where
  pub decodes : (b : Block Bytes) → c.pem_decode (c.pem_encode b) ≡ some b
  pub parses : (key : Key) (bytes : Bytes) → c.marshal key ≡ ok bytes → c.parse bytes ≡ ok key

module _ {W Bytes Key Jwk KeySet : Type 0} (c : Crypto Bytes Key Jwk KeySet)
    (s : System W Bytes Key) (path : String) (inv : IsInvertible c) (files : KeepsFiles s path)
    (set : KeySet) (v : W) where
  abbrev text_of : Bytes → Bytes
  text_of bytes = c.pem_encode (record { type_ = "EC PRIVATE KEY"; bytes = bytes })

  loaded-text :
      (key : Key) (bytes : Bytes)
      → c.marshal key ≡ ok bytes
      → loaded c s path (ok (text_of bytes)) ≡ added c s path (c.import_key key)
  unfolding loaded decoded parsed
  loaded-text key bytes m =
      rw (inv.decodes (record { type_ = "EC PRIVATE KEY"; bytes = bytes }), inv.parses key bytes m)
        refl

  module _ (key : Key) (bytes : Bytes) (m : c.marshal key ≡ ok bytes) where
    -- The file holds the text of the key, and its key set has been given.
    in_file :
        (w : W)
        → files.content w ≡ some (text_of bytes)
        → ◌≡◌ {A = Result KeySet × W} (added c s path (c.import_key key), w) (ok set, v)
        → load_or_create_key c s path v ≡ (ok set, v)
    unfolding load_or_create_key by_stat
    in_file w h k =
        let same : w ≡ v = ap (λ p. p.1) k in
        let held = rw same at h in
        rw (files.stats (text_of bytes) v held, files.reads (text_of bytes) v held)
          (ap (λ r. (r, v)) (loaded-text key bytes m ∙ ap (λ p. p.0) k))

    closed_again :
        (r : Result (Unit {0}) × W)
        → files.content r.1 ≡ some (text_of bytes)
        → closed c s path key r ≡ (ok set, v)
        → load_or_create_key c s path v ≡ (ok set, v)
    unfolding closed
    closed_again (err e, w) h k = absurd (cc (ap (λ p. p.0) k))
    closed_again (ok _, w) h k = in_file w h k

    written_again :
        (r : Result (Unit {0}) × W)
        → (r.0 ≡ ok tt → files.content r.1 ≡ some (text_of bytes))
        → written c s path key r ≡ (ok set, v)
        → load_or_create_key c s path v ≡ (ok set, v)
    unfolding written
    written_again (err e, w) h k = absurd (cc (ap (λ p. p.0) k))
    written_again (ok tt, w) h k = closed_again (s.close path w) (files.closes w ∙ h refl) k

    opened_again :
        (r : Result (Unit {0}) × W)
        → (r.0 ≡ ok tt → files.content r.1 ≡ some files.empty)
        → opened c s path key (text_of bytes) r ≡ (ok set, v)
        → load_or_create_key c s path v ≡ (ok set, v)
    unfolding opened
    opened_again (err e, w) h k = absurd (cc (ap (λ p. p.0) k))
    opened_again (ok tt, w) h k =
        written_again (s.write path (text_of bytes) w) (files.writes (text_of bytes) w (h refl)) k

  marshalled_again :
      (key : Key) (r : Result Bytes) (w : W)
      → c.marshal key ≡ r
      → marshalled c s path key r w ≡ (ok set, v)
      → load_or_create_key c s path v ≡ (ok set, v)
  unfolding marshalled
  marshalled_again key (err e) w m k = absurd (cc (ap (λ p. p.0) k))
  marshalled_again key (ok bytes) w m k =
      opened_again key bytes m (s.open_file path w) (files.opens w) k

  generated_again :
      (r : Result Key × W)
      → generated c s path r ≡ (ok set, v)
      → load_or_create_key c s path v ≡ (ok set, v)
  unfolding generated
  generated_again (err e, w) k = absurd (cc (ap (λ p. p.0) k))
  generated_again (ok key, w) k = marshalled_again key (c.marshal key) w refl k

  by_stat_again :
      (r : Result (Unit {0})) (w : W)
      → s.stat path w ≡ r
      → by_stat c s path r w ≡ (ok set, v)
      → load_or_create_key c s path v ≡ (ok set, v)
  unfolding by_stat load_or_create_key
  by_stat_again (err e) w h k = generated_again (s.generate_key w) k
  by_stat_again (ok tt) w h k =
      let same : w ≡ v = ap (λ p. p.1) k in
      let there = rw same at h in let given = rw same at k in rw there given

  -- A key set survives a restart: when `loadOrCreateKey` has given a key set, be it a new one or that
  -- of the file, the next call with the same path gives the same key set and changes no file. A text
  -- that has been written to an empty file is read back, and encoded keys decode to themselves.
  pub load_or_create_key-again :
      (w : W)
      → load_or_create_key c s path w ≡ (ok set, v)
      → load_or_create_key c s path v ≡ (ok set, v)
  unfolding load_or_create_key
  load_or_create_key-again w k = by_stat_again (s.stat path w) w refl k
