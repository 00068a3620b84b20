-- ===== src/Handlers/Auth.antt =====
-- `Login` (handlers/auth.go) and `generateSessionID` (handlers/handler.go).
pub mod Grant
use zerohttp_example.Base.{String, Bool, not, Option, none, some, Result}
use zerohttp_example.Base.Int.{ℤ}
use zerohttp_example.Http.{Outcome, problem, rendered}
use zerohttp_example.Http
use zerohttp_example.Models.{User}
use zerohttp_example.Models.Platform.{Platform}
use zerohttp_example.Api.{LoginRequest}
use zerohttp_example.Store.{
  get_user_by_email, read_random, generate_access_token, generate_refresh_token,
}
use zerohttp_example.Prog.{Prog, ret, stop, ask, try, or_problem, or_panic, refuse_if, ◌>>=◌, ◌>>◌}

module _ (pf : Platform) where
  -- `User.VerifyPassword`
  unfoldable pub verify_password : User → String → Bool
  verify_password u password = pf.verify_encoded password u.password_hash

  -- `!ok || !user.VerifyPassword(password)` is the refusal.
  unfoldable pub authenticate : Option User → String → Prog User
  unfolding verify_password
  authenticate none password = stop (problem 401 "invalid credentials")
  authenticate (some u) password = do
    refuse_if (not (verify_password u password)) 401 "invalid credentials"
    ret u

  unfoldable pub generate_session_id : Prog String
  generate_session_id = do
    id ← or_panic (← ask (read_random 32)) "failed to generate session id"
    ret (pf.base64_raw_url id)

  -- `expires_in` is `int(h.jwtCfg.AccessTokenTTL.Seconds())`.
  unfoldable pub login : ℤ → Result LoginRequest → Prog Outcome
  unfolding authenticate generate_session_id
  login expires_in bound = do
    req ← try bound
    stored ← try (← ask (get_user_by_email req.email))
    user ← authenticate stored req.password
    refuse_if (not user.active) 403 "account deactivated"
    session_id ← generate_session_id
    access_jti ← generate_session_id
    access_token ←
        or_problem
          (← ask (
            generate_access_token (record {
              sub = user.id;
              scope = user.role;
              jti = access_jti;
              sid = session_id;
              kind = none;
            })))
          500 "failed to generate access token"
    refresh_jti ← generate_session_id
    refresh_token ←
        or_problem
          (← ask (
            generate_refresh_token (record {
              sub = user.id;
              scope = user.role;
              jti = refresh_jti;
              sid = session_id;
              kind = some "refresh";
            })))
          500 "failed to generate refresh token"
    ret (
        rendered 200 (
          Http.login (record {
            access_token = access_token;
            refresh_token = refresh_token;
            token_type = "Bearer";
            expires_in = expires_in;
          })))
