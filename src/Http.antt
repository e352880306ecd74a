-- ===== src/Http.antt =====
-- The parts of net/http and of the request context (swlib's security keys) that the gateway reads
-- and writes. A handler takes the request and the state that it shares with other requests.
use swayrider_api.Base.{
  ℕ, String, append, ◌≡◌, refl, Bool, false, Option, none, List, [], ◌∷◌, arith, ◌==◌, eq_iff,
  if◌then◌else◌, ℤ,
}

-- A header field of a request or a response: the canonical name and one value.
abbrev pub Headers : Type 0
Headers = List (String × String)

module _ where
  -- Header.Get: the first value, or ""
  unfoldable pub header_get : Headers → String → String
  header_get [] k = ""
  header_get ((j, v) ∷ hs) k = if j == k then v else header_get hs k

  -- Header.Del
  unfoldable pub header_del : Headers → String → Headers
  header_del [] k = []
  header_del ((j, v) ∷ hs) k = if j == k then header_del hs k else (j, v) ∷ header_del hs k

  -- Header.Values
  unfoldable pub header_values : Headers → String → List String
  header_values [] k = []
  header_values ((j, v) ∷ hs) k = if j == k then v ∷ header_values hs k else header_values hs k

  -- Header.Set
  unfoldable pub header_set : Headers → String → String → Headers
  unfolding header_del
  header_set hs k v = (k, v) ∷ header_del hs k

pub record UserClaims : Type 0 where
  pub account_level : String
  pub is_admin : Bool

-- jwt.Claims; `user` is none where SwayRiderClaims is not of the user kind.
pub record Claims : Type 0 where
  pub subject : String
  pub email : Option String
  pub email_verified : Option Bool
  pub user : Option UserClaims

-- The values that the Auth middleware stores in the request's context.
pub record Context : Type 0 where
  pub claims : Option Claims
  pub jwt : Option String
  pub refresh : Option String
  pub orig_ip : String
  pub secure : Bool

abbrev pub no_context : Context
no_context = record { claims = none; jwt = none; refresh = none; orig_ip = ""; secure = false }

pub record Request : Type 0 where
  pub method : String
  pub path : String
  pub remote_addr : String
  pub tls : Bool
  pub headers : Headers
  -- the limit of the http.MaxBytesReader around the body, if there is one
  pub body_limit : Option ℤ
  pub ctx : Context

pub record Response : Type 0 where
  pub status : ℕ
  pub headers : Headers
  pub body : String

-- http.Error
unfoldable pub http_error : String → ℕ → Headers → Response
http_error text code headers = record {
  status = code;
  headers =
      header_set (header_set headers "Content-Type" "text/plain; charset=utf-8")
        "X-Content-Type-Options" "nosniff";
  body = append text "\n";
}

abbrev pub Handler : Type 0 → Type 0
Handler S = Request → S → Response × S

-- A handler that answers without touching the state.
abbrev pub reply : {S : Type 0} → Response → S → Response × S
reply r s = (r, s)

pub header_get-set :
    (hs : Headers) (k j v : String)
    → header_get (header_set hs k v) j ≡ (if k == j then v else header_get hs j)
unfolding header_get header_set header_del
header_get-set [] k j v = refl
header_get-set ((i, w) ∷ hs) k j v =
    ground (arith, header_get-set hs k j v, eq_iff k j, eq_iff i k, eq_iff i j)

pub header_values-del :
    (hs : Headers) (k j : String)
    → header_values (header_del hs k) j ≡ (if k == j then [] else header_values hs j)
unfolding header_values header_del
header_values-del [] k j = ground arith
header_values-del ((i, w) ∷ hs) k j =
    ground (arith, header_values-del hs k j, eq_iff k j, eq_iff i k, eq_iff i j)
