-- ===== src/Models/New.antt =====
-- The constructors of the models: `NewUser`, `NewOrder`, `NewRecord` (models/user.go,
-- models/order.go, models/record.go).
use zerohttp_example.Base.{String, true, false, if◌then◌else◌, List, [], ◌∷◌, Result, ok, err, ◌==◌}
use zerohttp_example.Models.{
  Float64, BaseModel, User, UserParams, OrderItem, Order, OrderParams, Record, RecordParams,
  role_user, status_pending,
}
use zerohttp_example.Models.Platform.{Platform}
use zerohttp_example.Store.{hash_encoded, new_xid, now}
use zerohttp_example.Prog.{Prog, ret, ask, ◌>>=◌}

-- The literal `BaseModel{ID: xid.New().String(), CreatedAt: time.Now(), UpdatedAt: time.Now()}`.
unfoldable pub new_base : Prog BaseModel
new_base = do
  id ← ask new_xid
  created ← ask now
  updated ← ask now
  ret (record { id = id; mongo_id = ""; created_at = created; updated_at = updated })

-- `NewUser` after the hash has been made.
unfoldable pub user_of_hash : UserParams → Result String → Prog (Result User)
unfolding new_base
user_of_hash p (err e) = ret (err e)
user_of_hash p (ok hash) = do
  base ← new_base
  ret (
      ok (record {
        base = base;
        email = p.email;
        name = p.name;
        password_hash = hash;
        address = p.address;
        active = true;
        role = if p.role == "" then role_user else p.role;
      }))

unfoldable pub new_user : UserParams → Prog (Result User)
unfolding user_of_hash
new_user p = do hash ← ask (hash_encoded p.password); user_of_hash p hash

module _ (pf : Platform) where
  -- The loop over the items: `total += item.Price * float64(item.Quantity)`.
  unfoldable pub total_from : Float64 → List OrderItem → Float64
  total_from total [] = total
  total_from total (i ∷ is) =
      total_from (pf.float_add total (pf.float_mul i.price (pf.float_of_int i.quantity))) is

  unfoldable pub new_order : OrderParams → Prog Order
  unfolding new_base
  new_order p = do
    let total = total_from pf.float_zero p.items
    base ← new_base
    ret (record {
      base = base;
      user_id = p.user_id;
      items = p.items;
      total = total;
      status = status_pending;
      shipping_address = p.shipping_address;
    })

unfoldable pub new_record : RecordParams → Prog Record
unfolding new_base
new_record p = do
  base ← new_base
  ret (record {
    base = base;
    title = p.title;
    artist = p.artist;
    year = p.year;
    label = p.label;
    catalog_number = p.catalog_number;
    format = p.format;
    genre = p.genre;
    condition = p.condition;
    price = p.price;
    stock = p.stock;
    description = p.description;
    archived = false;
  })
