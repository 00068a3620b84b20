-- ===== src/Tests/Setup.antt =====
-- The theorems on signing keys, indexes, versions and filters at concrete inputs: a system with one
-- file, a client that keeps a list of the indexes it has made.
use zerohttp_example.Base.{
  String, ◌≡◌, ◌↔◌, ◌⊎◌, refl, subst, inl, inr, true, Option, none, some, List, [], ◌∷◌, ◌++◌, All,
  Result, ok, err,
}
use zerohttp_example.Base.Int.{pos, add_int, ◌+ℤ◌}
use zerohttp_example.Store.{RecordFilter}
use zerohttp_example.Mongo.Queries.{record_query}
use zerohttp_example.Mongo.Driver.{Matches, record_fields}
use zerohttp_example.Mongo.Filter.{Wants, record_query-Wants}
use zerohttp_example.Mongo.Connect.{IndexModel, Client, Handles}
use zerohttp_example.Mongo.Unique.{MakesIndexes}
use zerohttp_example.App.Keys.{Crypto, System, load_or_create_key}
use zerohttp_example.App.Keys.Reload.{KeepsFiles, IsInvertible, load_or_create_key-again}
use zerohttp_example.Tests.Fixtures.{platform, blue}

-- A text is a list of lines; a key is one line.
abbrev pub crypto : Crypto (List String) String String String
crypto = record {
  marshal = λ key. ok (key ∷ []);
  parse = elim [ key ∷ [] ↦ ok key | _ ↦ err "not a key" ];
  pem_encode = λ b. b.type_ ∷ b.bytes;
  pem_decode = elim [ t ∷ bytes ↦ some (record { type_ = t; bytes = bytes }) | [] ↦ none ];
  import_key = ok;
  add_key = ok;
}

pub crypto-IsInvertible : IsInvertible crypto
crypto-IsInvertible = record {
  decodes = λ b. refl;
  parses = λ key bytes h.
      let same : (key ∷ []) ≡ bytes = cc h in subst (λ b. crypto.parse b ≡ ok key) same refl;
}

abbrev pub one_file : System (Option (List String)) (List String) String
one_file = record {
  stat = λ path. elim [ none ↦ err "no such file" | some text ↦ ok tt ];
  read_file = λ path. elim [ none ↦ err "no such file" | some text ↦ ok text ];
  open_file = λ path w. (ok tt, some []);
  write = λ path text w. (ok tt, some text);
  close = λ path w. (ok tt, w);
  generate_key = λ w. (ok "d2Vz", w);
}

pub one_file-KeepsFiles : (path : String) → KeepsFiles one_file path
one_file-KeepsFiles path = record {
  content = λ w. w;
  empty = [];
  opens = λ w h. refl;
  writes = λ text w h k. refl;
  closes = λ w. refl;
  reads = λ text w h. rw h refl;
  stats = λ text w h. rw h refl;
}

abbrev key_file : Option (List String)
key_file = some ("EC PRIVATE KEY" ∷ "d2Vz" ∷ [])

load_or_create_key-again_example :
    load_or_create_key crypto one_file "jwt.pem" key_file ≡ (ok "d2Vz", key_file)
unfolding load_or_create_key
load_or_create_key-again_example =
    load_or_create_key-again crypto one_file "jwt.pem" crypto-IsInvertible
      (one_file-KeepsFiles "jwt.pem") "d2Vz" key_file none refl

abbrev pub Index : Type 0
Index = String × (String × IndexModel)

abbrev Member : Index → List Index → Type 0
Member i [] = ⊥
Member i (j ∷ js) = (i ≡ j) ⊎ Member i js

abbrev on : String → String → List IndexModel → List Index
on db coll [] = []
on db coll (i ∷ is) = (db, (coll, i)) ∷ on db coll is

abbrev pub client : Client (List Index)
client = record {
  connect = λ uri w. (ok tt, w);
  ping = λ w. (ok tt, w);
  disconnect = λ w. (ok tt, w);
  create_many = λ db coll is w. (ok tt, on db coll is ++ w);
}

older : (i : Index) (xs ys : List Index) → Member i ys → Member i (xs ++ ys)
older i [] ys h = h
older i (x ∷ xs) ys h = inr (older i xs ys h)

All-older :
    (db coll : String) (is : List IndexModel) (x : Index) (w : List Index)
    → All (λ i. Member (db, (coll, i)) w) is
    → All (λ i. Member (db, (coll, i)) (x ∷ w)) is
All-older db coll [] x w h = tt
All-older db coll (i ∷ is) x w h = (inr h.0, All-older db coll is x w h.1)

All-made :
    (db coll : String) (is : List IndexModel) (w : List Index)
    → All (λ i. Member (db, (coll, i)) (on db coll is ++ w)) is
All-made db coll [] w = tt
All-made db coll (i ∷ is) w = (inl refl, All-older db coll is _ _ (All-made db coll is w))

pub client-MakesIndexes : MakesIndexes client
client-MakesIndexes = record {
  Has = λ w db coll i. Member (db, (coll, i)) w;
  made = λ db coll is w h. All-made db coll is w;
  kept = λ db coll is w other name i h. older _ (on db coll is) w h;
}

abbrev handles : Handles
handles = record { db = "vinylstore"; users = "users"; records = "records"; orders = "orders" }

-- Jazz of the fifties in stock, up to thirty.
abbrev fifties : RecordFilter
fifties = record {
  base = record { page = pos 1; per_page = pos 20 };
  genres = "jazz" ∷ "blues" ∷ [];
  decade = pos 1950;
  conditions = [];
  formats = "lp" ∷ [];
  artist = "";
  min_price = 0;
  max_price = 30;
  in_stock = true;
  sort = "price_asc";
}

record_query-Wants_example :
    Matches record_fields platform.float_gt (record_query platform fifties) blue
    ↔ Wants platform fifties blue
unfolding add_int ◌+ℤ◌
record_query-Wants_example = record_query-Wants platform blue fifties refl

-- No write succeeds on a full disk.
abbrev full_disk : System (Option (List String)) (List String) String
full_disk = record one_file { write = λ path text w. (err "no space left on device", w) }

unwritten : {A : Type 0} {e : String} → ◌≡◌ {A = Result (Unit {0})} (err e) (ok tt) → A
unwritten k = absurd (cc k)

abbrev full_disk-KeepsFiles : (path : String) → KeepsFiles full_disk path
full_disk-KeepsFiles path = record {
  content = λ w. w;
  empty = [];
  opens = λ w h. refl;
  writes = λ text w h k. unwritten k;
  closes = λ w. refl;
  reads = λ text w h. rw h refl;
  stats = λ text w h. rw h refl;
}
