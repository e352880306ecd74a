-- ===== src/Middleware/Auth.antt =====
-- internal/middleware/auth.go: the context that the Auth middleware builds. Package net (ParseIP,
-- IPNet.Contains, SplitHostPort), the key cache and swlib's cookies are the parameter `env`.
pub mod ClientIp
use mathlib.Core.List.{reverse}
use swayrider_api.Base.{
  String, append, Bool, true, false, not, ◌&&◌, ◌||◌, Option, none, some, List, [], ◌∷◌, ◌==◌,
  if◌then◌else◌, any, has_prefix, trim_prefix, trim_space, split,
}
use swayrider_api.Http.{Request, Headers, Handler, Claims, Context, header_get}

pub record Env (Ip Net : Type 0) : Type 0 where
  -- KeyCache.Verify, none for an error
  pub verify : String → Option Claims
  -- r.Cookie(FullCookieName(name)) and DecodeValue, none where either fails
  pub cookie : Headers → String → Option String
  pub parse_ip : String → Option Ip
  pub contains : Net → Ip → Bool
  -- the host of SplitHostPort, none for an error
  pub split_host : String → Option String
  -- strings.EqualFold with "https"
  pub is_https : String → Bool

module _ {Ip Net : Type 0} (env : Env Ip Net) where
  unfoldable pub peer_ip : Request → String
  peer_ip r = elim (env.split_host r.remote_addr) [ some host ↦ host | none ↦ r.remote_addr ]

  unfoldable pub is_trusted_proxy : String → List Net → Bool
  is_trusted_proxy ip trusted = elim (env.parse_ip ip) [
    | none ↦ false
    | some parsed ↦ any (λ n. env.contains n parsed) trusted
  ]

  -- ip == "" || isTrustedProxy(ip, trusted)
  abbrev pub is_skipped : List Net → String → Bool
  is_skipped trusted ip = ip == "" || is_trusted_proxy ip trusted

  -- The loop of clientIP, over the entries from the last to the first.
  unfoldable pub client_from : List Net → String → List String → String
  client_from trusted peer [] = peer
  client_from trusted peer (entry ∷ entries) =
      if is_skipped trusted (trim_space entry)
      then client_from trusted peer entries
      else trim_space entry

  unfoldable pub client_ip : Headers → String → List Net → String
  client_ip headers peer trusted =
      if not (is_trusted_proxy peer trusted)
      then peer
      else let xff = header_get headers "X-Forwarded-For" in
        if xff == "" then peer else client_from trusted peer (reverse (split xff b','))

  -- The token: the bearer header, or else the cookie; "" for none.
  unfoldable pub token_of : Request → String
  token_of r =
      let auth = header_get r.headers "Authorization" in
      if has_prefix auth "Bearer "
      then trim_prefix auth "Bearer "
      else elim (env.cookie r.headers "access_token") [ none ↦ "" | some t ↦ t ]

  -- The claims and the token, where the token is there and verifies.
  unfoldable pub verified : String → Option (Claims × String)
  verified token =
      if token == ""
      then none
      else elim (env.verify token) [ none ↦ none | some c ↦ some (c, token) ]

  unfoldable pub authenticate : List Net → Request → Context
  authenticate trusted r =
      let found = verified (token_of r) in
      let peer = peer_ip r in
      record {
        claims = elim found [ none ↦ none | some (c, t) ↦ some c ];
        jwt = elim found [ none ↦ none | some (c, t) ↦ some t ];
        refresh = env.cookie r.headers "refresh_token";
        orig_ip = client_ip r.headers peer trusted;
        secure =
            r.tls
            || (is_trusted_proxy peer trusted
                && env.is_https (header_get r.headers "X-Forwarded-Proto"));
      }

  unfoldable pub auth : {S : Type 0} → List Net → Handler S → Handler S
  auth trusted next r s = next (record r { ctx = authenticate trusted r }) s
