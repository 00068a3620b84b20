-- ===== src/Models/Platform.antt =====
-- What the code calls and does not implement: float64 arithmetic, time formatting, base64 and argon2's
-- verification and zerohttp's pagination package. A `Platform` is a parameter of the model.
use zerohttp_example.Base.{ℕ, String, Bool, List}
use zerohttp_example.Base.Int.{ℤ}

-- zerohttp's `pagination.Params`.
pub record PageParams : Type 0 where
  pub page : ℤ
  pub per_page : ℤ

pub record Platform : Type 0 where
  pub float_zero : ℕ
  pub float_add : ℕ → ℕ → ℕ
  pub float_mul : ℕ → ℕ → ℕ
  pub float_of_int : ℤ → ℕ
  -- The literal for a number of hundredths.
  pub float_hundredths : ℕ → ℕ
  pub float_eq : ℕ → ℕ → Bool
  pub float_gt : ℕ → ℕ → Bool
  -- `t.Format(time.RFC3339)`
  pub rfc3339 : ℕ → String
  -- `base64.RawURLEncoding.EncodeToString(bytes)`
  pub base64_raw_url : List ℕ → String
  -- `argon2.VerifyEncoded([]byte(password), []byte(hash))`
  pub verify_encoded : String → String → Bool
  -- `Params.Defaults`, `Params.Offset`, `Params.LimitSkip`
  pub defaults : PageParams → PageParams
  pub offset : PageParams → ℤ
  pub limit_skip : PageParams → ℤ × ℤ
