-- ===== src/Handlers/Order/Stock.antt =====
-- The stock of a record under the calls of the order handlers, and the units of a record in a list
-- of order items.
use zerohttp_example.Base.{
  String, ◌≡◌, inl, inr, Bool-cases, ◌==◌, if◌then◌else◌, Option, none, some, List, [], ◌∷◌, arith,
  eq_iff,
}
use zerohttp_example.Base.Int.{ℤ, pos, ◌+ℤ◌, ◌≤ℤ◌, int_laws}
use zerohttp_example.Models.{OrderItem, Record, Time}
use zerohttp_example.Store.Spec.{Db, with_taken}

abbrev pub stock_or_zero : Option Record → ℤ
stock_or_zero none = pos 0
stock_or_zero (some r) = r.stock

-- The stock of a record, 0 if there is none.
abbrev pub stock_of : Db → String → ℤ
stock_of d id = stock_or_zero (d.records id)

abbrev pub units_if : String → String → ℤ → ℤ
units_if j id q = if j == id then q else pos 0

-- The units of record `j` in a list of order items.
abbrev pub units : String → List OrderItem → ℤ
units j [] = pos 0
units j (i ∷ is) = units_if j i.record_id i.quantity +ℤ units j is

pub units_if_nonneg : (j id : String) (q : ℤ) → pos 0 ≤ℤ q → pos 0 ≤ℤ units_if j id q
units_if_nonneg j id q h = ground arith

-- Every record stands under its own id.
abbrev pub IsKeyed : Db → Type 0
IsKeyed d = (id : String) (r : Record) → d.records id ≡ some r → r.id ≡ id

pub stock_of-with_taken :
    (d : Db) (id : String) (r : Record) (q : ℤ) (t : Time) (j : String)
    → d.records id ≡ some r
    → stock_of (with_taken d id r q t) j +ℤ units_if j id q ≡ stock_of d j
stock_of-with_taken d id r q t j h = elim (Bool-cases (j == id)) [
  | inl e ↦ rw (e, (eq_iff j id).0 e, h) (omega int_laws)
  | inr e ↦ rw e (omega int_laws)
]

pub with_taken-IsKeyed :
    (d : Db) (id : String) (r : Record) (q : ℤ) (t : Time)
    → d.records id ≡ some r
    → IsKeyed d
    → IsKeyed (with_taken d id r q t)
with_taken-IsKeyed d id r q t h k j x e = ground (arith, eq_iff j id, k id r h, k j x)
