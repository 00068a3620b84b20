-- ===== src/Http.antt =====
-- What a handler reads of a request and how it ends. The token's claims come from zerohttp's
-- `jwtauth.GetClaims`, the path values from `net/http` and `zh.Param`.
use zerohttp_example.Base.{ℕ, String, Bool, List, ◌==◌, if◌then◌else◌}
use zerohttp_example.Base.Int.{ℤ}
use zerohttp_example.Models.Platform.{PageParams}
use zerohttp_example.Api.{
  LoginResponse, UserResponse, RecordResponse, OrderResponse, ListInventoryResponse,
  RestockResponse,
}

-- `claims.Subject()`, which is "" without a token, and `claims.HasScope`.
pub record Claims : Type 0 where
  pub subject : String
  pub has_scope : String → Bool

-- `path_value` is `r.PathValue`, `param` is `zh.Param(r, ·)`; `has_body` is
-- `r.Body != http.NoBody`.
pub record Request : Type 0 where
  pub claims : Claims
  pub path_value : String → String
  pub param : String → String
  pub has_body : Bool

-- `r.SetPathValue(k, v)`.
abbrev pub set_path_value : Request → String → String → Request
set_path_value r k v = record r { path_value = λ j. if j == k then v else r.path_value j }

-- The value that a handler renders.
pub data Body : Type 0 where
  login : LoginResponse → Body
  user : UserResponse → Body
  users : List UserResponse → Body
  record_body : RecordResponse → Body
  records : List RecordResponse → Body
  order : OrderResponse → Body
  orders : List OrderResponse → Body
  inventory : ListInventoryResponse → Body
  restock : RestockResponse → Body

-- How a handler ends, by its last call: `return err`, `zh.Render.ProblemDetail` with a status and
-- a detail, `zh.RenderAndValidate` with a status and a body, the same after
-- `params.WriteHeaders(w, r.URL, total)`, `zh.R.NoContent`, or a panic.
pub data Outcome : Type 0 where
  failed : String → Outcome
  problem : ℕ → String → Outcome
  rendered : ℕ → Body → Outcome
  paged : PageParams → ℤ → ℕ → Body → Outcome
  no_content : Outcome
  panicked : String → Outcome
