-- ===== src/App/Keys/Broken.antt =====
-- A key file that could not be written stays, and stops every later start (app/keys.go).
use zerohttp_example.Base.{String, ◌≡◌, ◌⊎◌, none, some, Result, err}
use zerohttp_example.App.Keys.{Crypto, System, load_or_create_key}
use zerohttp_example.App.Keys.Reload.{KeepsFiles}

-- The documented behaviour of files on a full disk: a file that is not there is missed, what fails
-- before the file is created leaves it so, and no byte can be written to an empty file.
pub record IsFull {W Bytes Key : Type 0} (s : System W Bytes Key) (path : String)
    (files : KeepsFiles s path) : Type 0 where
  pub misses : (w : W) → files.content w ≡ none → (e : String) × (s.stat path w ≡ err e)
  pub draws : (w : W) → files.content (s.generate_key w).1 ≡ files.content w
  pub unopened :
      (w : W) (e : String)
      → (s.open_file path w).0 ≡ err e
      → files.content (s.open_file path w).1 ≡ files.content w
  pub refuses :
      (text : Bytes) (w : W)
      → files.content w ≡ some files.empty
      → ((e : String) × ((s.write path text w).0 ≡ err e))
        × (files.content (s.write path text w).1 ≡ some files.empty)

module _ {W Bytes Key Jwk KeySet : Type 0} (c : Crypto Bytes Key Jwk KeySet)
    (s : System W Bytes Key) (path : String) (files : KeepsFiles s path)
    (full : IsFull s path files) (no_block : c.pem_decode files.empty ≡ none) where
  -- The call has failed. There is still no file, or an empty one, and then every call fails as long
  -- as the file is as it is.
  abbrev pub Breaks : Result KeySet × W → Type 0
  Breaks x =
      ((e : String) × (x.0 ≡ err e))
      × ((files.content x.1 ≡ none)
          ⊎ ((u : W)
              → files.content u ≡ files.content x.1
              → load_or_create_key c s path u ≡ (err "failed to decode PEM block", u)))
