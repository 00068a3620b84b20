-- ===== src/Base/Results.antt =====
-- A call's result and Go's `error`, which is known by its text.
use Prim.Native.String.{String}

pub data Result {ℓ} (A : Type ℓ) : Type ℓ where
  ok : A → Result A
  err : String → Result A
