-- ===== src/Handlers/Order/Access.antt =====
-- Who may see and cancel which order (handlers/order.go).
use zerohttp_example.Base.{
  ◌≡◌, ◌≢◌, refl, subst, ◌⊎◌, inl, inr, Bool-cases, true, false, arith, ◌==◌, eq_iff, Result, ok,
  err, some, none, String, All, List, map, [], ◌∷◌,
}
use zerohttp_example.Http.{Request, Outcome, rendered, paged, problem, failed}
use zerohttp_example.Http
use zerohttp_example.Models.{Order, role_admin}
use zerohttp_example.Models.Platform.{Platform}
use zerohttp_example.Api.{OrderResponse, ListOrdersRequest, new_order_response}
use zerohttp_example.Store.Spec.{Db}
use zerohttp_example.Store.Rules.{on_get_order, on_list}
use zerohttp_example.Prog.Always.{Ensures}
use zerohttp_example.Handlers.Middleware.{get_role, get_user_id}
use zerohttp_example.Handlers.Order.{get_order, list_orders, is_stranger, query_user_id}

-- The caller has the admin scope, or the order is the caller's own.
abbrev pub MaySee : Request → Order → Type 0
MaySee r o = (r.claims.has_scope "admin" ≡ true) ⊎ (o.user_id ≡ r.claims.subject)

get_role-eq-admin : (r : Request) → (get_role r == role_admin) ≡ r.claims.has_scope "admin"
unfolding get_role
get_role-eq-admin r = elim (Bool-cases (r.claims.has_scope "admin")) [
  | inl e ↦ rw (e, get_role)
  | inr e ↦ rw (e, get_role)
]

-- `is_stranger` decides `MaySee`.
pub is_stranger-MaySee :
    (r : Request) (o : Order)
    → ((is_stranger r o ≡ false) → MaySee r o) × ((is_stranger r o ≡ true) → ¬ MaySee r o)
unfolding is_stranger get_user_id
is_stranger-MaySee r o = rw (get_role-eq-admin r) (
  ground (arith, eq_iff o.user_id r.claims.subject),
  ground (arith, eq_iff o.user_id r.claims.subject),
)

-- What `GetOrder` shows: the stored order of the path, to a caller who may see it; a stranger
-- gets 403, and a missing order is 404.
abbrev pub Shows : Platform → Request → Db → Outcome → Type 0
Shows pf r d (rendered status b) =
    (status ≡ 200)
    × (x : Order) × (d.orders (r.path_value "id") ≡ some x)
    × MaySee r x
    × (b ≡ Http.order (new_order_response pf x))
Shows pf r d (problem status detail) =
    ((status ≡ 400) × (r.path_value "id" ≡ ""))
    ⊎ ((status ≡ 404) × (d.orders (r.path_value "id") ≡ none))
    ⊎ ((status ≡ 403) × (x : Order) × (d.orders (r.path_value "id") ≡ some x) × (¬ MaySee r x))
Shows pf r d (failed t) = Unit {0}
Shows pf r d o = ⊥

module _ (pf : Platform) (r : Request) (d : Db) where
  -- `GetOrder` shows the order of the path to its owner and to admins and to nobody else, and
  -- changes nothing; the refusals say why.
  pub get_order-Shows : Ensures (get_order pf r) d λ o e. (e ≡ d) × Shows pf r d o
  unfolding get_order
  get_order-Shows = elim (Bool-cases (r.path_value "id" == "")) [
    | inl e ↦ rw e (refl, inl (refl, (eq_iff _ _).0 e))
    | inr e ↦ rw e (
        on_get_order _ (λ t. (refl, tt)) (λ h. (refl, inr (inl (refl, h))))
          λ x h. elim (Bool-cases (is_stranger r x)) [
            | inl s ↦ rw s (refl, inr (inr (refl, x, h, (is_stranger-MaySee r x).1 s)))
            | inr s ↦ rw s (refl, (refl, x, h, (is_stranger-MaySee r x).0 s, refl))
          ])
  ]

abbrev OwnedBy : String → List OrderResponse → Type 0
OwnedBy user = All (λ b. b.user_id ≡ user)

owned_responses :
    (pf : Platform) (d : Db) (user : String) (xs : List Order)
    → All (λ x. (d.orders x.id ≡ some x) × (x.user_id ≡ user)) xs
    → OwnedBy user (map (new_order_response pf) xs)
unfolding new_order_response
owned_responses pf d user [] h = tt
owned_responses pf d user (x ∷ xs) h = (h.0.1, owned_responses pf d user xs h.1)

query_user_id-own :
    (r : Request) (req : ListOrdersRequest)
    → r.claims.has_scope "admin" ≡ false
    → query_user_id r req ≡ r.claims.subject
unfolding query_user_id get_user_id
query_user_id-own r req h = rw (get_role-eq-admin r, h)

-- What `ListOrders` gives a caller without the admin scope: orders of the caller's own, of which
-- none is shown to a caller with no subject.
abbrev pub ListsOwn : Request → Outcome → Type 0
ListsOwn r (paged params total status (Http.orders bs)) =
    (status ≡ 200) × (r.claims.subject ≢ "") × OwnedBy r.claims.subject bs
ListsOwn r (problem status detail) = (status ≡ 401) × (r.claims.subject ≡ "")
ListsOwn r (failed t) = Unit {0}
ListsOwn r o = ⊥

-- `ListOrders` shows a caller without the admin scope only orders of that caller, whatever user
-- the query names, and changes nothing; a caller with no subject gets 401.
pub list_orders-ListsOwn :
    (pf : Platform) (r : Request) (bound : Result ListOrdersRequest) (d : Db)
    → r.claims.has_scope "admin" ≡ false
    → Ensures (list_orders pf r bound) d λ o e. (e ≡ d) × ListsOwn r o
unfolding list_orders get_user_id
list_orders-ListsOwn pf r (err t) d h = (refl, tt)
list_orders-ListsOwn pf r (ok req) d h = elim (Bool-cases (r.claims.subject == "")) [
  | inl e ↦ rw e (refl, (refl, (eq_iff _ _).0 e))
  | inr e ↦ rw e (
      on_list _ (λ t. (refl, tt))
        λ xs total own. (
          refl,
          (
            refl,
            (λ s. cc ((eq_iff r.claims.subject "").1 s)),
            subst (λ u. OwnedBy u (map (new_order_response pf) xs)) (query_user_id-own r req h)
                (owned_responses pf d _ xs own),
          ),
        ))
]
