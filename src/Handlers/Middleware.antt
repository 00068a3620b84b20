-- ===== src/Handlers/Middleware.antt =====
-- The authorization middleware (handlers/middleware.go). A middleware takes the next handler and
-- gives a handler.
use zerohttp_example.Base.{String, not, ◌&&◌, ◌==◌, if◌then◌else◌}
use zerohttp_example.Http.{Request, Outcome, problem, set_path_value}
use zerohttp_example.Models.{role_user, role_admin}
use zerohttp_example.Prog.{Prog, stop}

abbrev pub HttpHandler : Type 0
HttpHandler = Request → Prog Outcome

unfoldable pub require_admin : HttpHandler → HttpHandler
require_admin next r =
    if r.claims.subject == ""
    then stop (problem 401 "authentication required")
    else if not (r.claims.has_scope "admin")
    then stop (problem 403 "admin access required")
    else next r

unfoldable pub require_owner : HttpHandler → HttpHandler
require_owner next r =
    let user_id = r.claims.subject in
    let resource_id = r.param "id" in
    if r.claims.has_scope "admin"
    then next (if resource_id == "me" then set_path_value r "id" user_id else r)
    else if resource_id == "me"
    then next (set_path_value r "id" user_id)
    else if not (resource_id == "") && not (resource_id == user_id)
    then stop (problem 403 "access denied")
    else next r

unfoldable pub get_user_id : Request → String
get_user_id r = r.claims.subject

unfoldable pub get_role : Request → String
get_role r = if r.claims.has_scope "admin" then role_admin else role_user
