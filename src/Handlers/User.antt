-- ===== src/Handlers/User.antt =====
-- The handlers of /users (handlers/user.go).
pub mod Signup
pub mod Owner
pub mod Deactivate
pub mod View
use zerohttp_example.Base.{◌==◌, Option, none, some, is_some, map, Result}
use zerohttp_example.Base.Int.{pos}
use zerohttp_example.Http.{Request, Outcome, rendered, paged, no_content}
use zerohttp_example.Http
use zerohttp_example.Models.{Address, empty_address, role_user, update, deactivate}
use zerohttp_example.Models.New.{new_user}
use zerohttp_example.Models.Platform.{Platform}
use zerohttp_example.Api.{CreateUserRequest, UpdateUserRequest, new_user_response}
use zerohttp_example.Store.{get_user_by_email, save_user, get_all_users, now}
use zerohttp_example.Store
use zerohttp_example.Prog.{Prog, ret, ask, try, found, or_problem, refuse_if, ◌>>=◌, ◌>>◌}

abbrev pub address_or : Option Address → Address → Address
address_or none d = d
address_or (some a) d = a

module _ (pf : Platform) where
  unfoldable pub create_user : Result CreateUserRequest → Prog Outcome
  unfolding new_user
  create_user bound = do
    req ← try bound
    taken ← try (← ask (get_user_by_email req.email))
    refuse_if (is_some taken) 409 "user with this email already exists"
    user ←
        or_problem
          (← new_user (record {
            email = req.email;
            name = req.name;
            password = req.password;
            role = role_user;
            address = address_or req.address empty_address;
          }))
          500 "failed to create user"
    try (← ask (save_user user))
    ret (rendered 201 (Http.user (new_user_response pf user)))

  unfoldable pub get_user : Request → Prog Outcome
  get_user r = do
    let id = r.path_value "id"
    refuse_if (id == "") 400 "user id is required"
    user ← found (← try (← ask (Store.get_user id))) 404 "user not found"
    ret (rendered 200 (Http.user (new_user_response pf user)))

  unfoldable pub update_user : Request → Result UpdateUserRequest → Prog Outcome
  unfolding update
  update_user r bound = do
    let id = r.path_value "id"
    refuse_if (id == "") 400 "user id is required"
    user ← found (← try (← ask (Store.get_user id))) 404 "user not found"
    req ← try bound
    updated_at ← ask now
    let user' = update user req.name (address_or req.address user.address) updated_at
    try (← ask (save_user user'))
    ret (rendered 200 (Http.user (new_user_response pf user')))

  unfoldable pub list_users : Prog Outcome
  list_users = do
    (users, total) ←
        try (← ask (get_all_users (record { base = record { page = pos 1; per_page = pos 20 } })))
    let params = pf.defaults (record { page = pos 1; per_page = pos 20 })
    ret (paged params total 200 (Http.users (map (new_user_response pf) users)))

unfoldable pub deactivate_user : Request → Prog Outcome
unfolding deactivate
deactivate_user r = do
  let id = r.path_value "id"
  refuse_if (id == "") 400 "user id is required"
  user ← found (← try (← ask (Store.get_user id))) 404 "user not found"
  updated_at ← ask now
  try (← ask (save_user (deactivate user updated_at)))
  ret no_content
