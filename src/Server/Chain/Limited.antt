-- ===== src/Server/Chain/Limited.antt =====
-- The rate limit of a request as Run composes it: from the headers and the peer to the limiter's key.
use swayrider_api.Base.{String, Option, List}
use swayrider_api.Http.{Request}
use swayrider_api.Config.{Config}
use swayrider_api.Middleware.Auth.{Env, authenticate}
use swayrider_api.Server.{parse_trusted_proxies}

module _ {Ip Net : Type 0} (env : Env Ip Net) (parse_cidr : String → Option Net)
    (cfg : Config) where
  abbrev pub proxies : List Net
  proxies = parse_trusted_proxies parse_cidr cfg.trusted_proxies

  -- The request as the middleware below Auth sees it.
  abbrev pub seen : Request → Request
  seen r = record r { ctx = authenticate env proxies r }
