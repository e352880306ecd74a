-- ===== src/Handlers/Auth/Admin.antt =====
-- internal/handlers/auth_admin.go. URL.Query().Get is the parameter `query`, and strconv.Atoi, with
-- the number that it returns beside an error, the parameter `atoi`.
use swayrider_api.Base.{
  String, Bool, Option, none, some, List, [], ◌∷◌, ◌==◌, map, not, if◌then◌else◌, ℤ, pos, is_pos,
}
use swayrider_api.Http.{Request, Handler, http_error}
use swayrider_api.Handlers.Answers.{
  Env, Cell, text, flag, texts, time, string, integer, rows, write_json, answer, with_token,
  with_body,
}
use swayrider_api.Handlers.Auth.Service.{
  AuthClient, Bodies, WhoIsRequest, WhoIsOneOf, by_email, by_user_id, Invite, ServiceClient,
}
use swayrider_api.Handlers.Auth.Account.{message_object, created_object, user_object}

-- The switch of WhoIs.
unfoldable pub lookup_of : WhoIsRequest → Option WhoIsOneOf
lookup_of q =
    if not (q.email == "")
    then some (by_email q.email)
    else if not (q.user_id == "")
    then some (by_user_id q.user_id)
    else none

-- A page number or a page size: the query's, if it is at least 1.
unfoldable pub at_least_one : ℤ → ℤ → ℤ
at_least_one n default = if is_pos n then n else default

-- The query's `registered`.
unfoldable pub registered_of : String → Option Bool
registered_of raw = if raw == "" then none else some (raw == "true")

unfoldable pub invite_row : Invite → List (String × Cell)
invite_row i =
    ("id", text i.id)
    ∷ ("email", text i.email)
    ∷ ("created_at", time i.created_at)
    ∷ ("registered", flag i.registered)
    ∷ []

unfoldable pub service_client_row : ServiceClient → List (String × Cell)
service_client_row c =
    ("client_id", text c.client_id)
    ∷ ("name", text c.name)
    ∷ ("description", text c.description)
    ∷ ("scopes", texts c.scopes)
    ∷ []

module _ (env : Env) {S : Type 0} (bodies : Bodies) (client : AuthClient S)
    (query : Request → String → String) (atoi : String → ℤ) where
  unfoldable pub create_admin : Handler S
  create_admin = with_token λ token. with_body bodies.create_admin λ q r s.
      answer env (client.create_admin token q.email q.password s)
        (λ a. write_json env 200 (created_object a) [])

  unfoldable pub change_account_type : Handler S
  change_account_type = with_token λ token. with_body bodies.account_type λ q r s.
      answer env (client.change_account_type token q.user_id q.account_type s)
        (λ m. write_json env 200 (message_object m) [])

  unfoldable pub who_is : Handler S
  who_is = with_token λ token. with_body bodies.who_is λ q r s. elim (lookup_of q) [
    | none ↦ (http_error "email or userId required" 400 [], s)
    | some lookup ↦
        answer env (client.who_is token lookup s) (λ user. write_json env 200 (user_object user) [])
  ]

  unfoldable pub invite_user : Handler S
  invite_user = with_token λ token. with_body bodies.email λ email r s.
      answer env (client.invite_user token email s) (λ m. write_json env 200 (message_object m) [])

  unfoldable pub revoke_invite : Handler S
  revoke_invite = with_token λ token. with_body bodies.email λ email r s.
      answer env (client.revoke_invite token email s)
        (λ m. write_json env 200 (message_object m) [])

  abbrev pub page_of : Request → ℤ
  page_of r = at_least_one (atoi (query r "page")) (pos 1)

  abbrev pub page_size_of : Request → ℤ
  page_size_of r = at_least_one (atoi (query r "pageSize")) (pos 20)

  unfoldable pub list_invites : Handler S
  list_invites = with_token λ token r s.
      answer env
        (client.list_invites token (page_of r) (page_size_of r)
          (registered_of (query r "registered")) s)
        λ a.
          write_json env 200
            (("invites", rows (map invite_row a.0)) ∷ ("num_invites", integer a.1) ∷ []) []

  unfoldable pub create_service_client : Handler S
  create_service_client = with_token λ token. with_body bodies.service_client λ q r s.
      answer env (client.create_service_client token q.name q.description q.scopes s)
        λ a. write_json env 200 (("client_id", string a.0) ∷ ("client_secret", string a.1) ∷ []) []

  unfoldable pub delete_service_client : Handler S
  delete_service_client = with_token λ token. with_body bodies.client_id λ client_id r s.
      answer env (client.delete_service_client token client_id s)
        (λ m. write_json env 200 (message_object m) [])

  unfoldable pub list_service_clients : Handler S
  list_service_clients = with_token λ token r s.
      answer env (client.list_service_clients token (page_of r) (page_size_of r) s) λ a.
        write_json env 200
          (("clients", rows (map service_client_row a.0)) ∷ ("num_clients", integer a.1) ∷ []) []
