-- ===== src/Handlers/Static.antt =====
-- internal/handlers/health.go and openapi.go, with api/spec.go: answers that do not change. The
-- embedded file of the specification is the parameter `spec`.
use swayrider_api.Base.{String}
use swayrider_api.Http.{Handler, Headers, header_set}

-- encoding/json writes the keys of a map in order, and ends with a line feed.
unfoldable pub health : {S : Type 0} → Headers → Handler S
health headers r s = (
  record {
    status = 200;
    headers = header_set headers "Content-Type" "application/json";
    body = "{\"service\":\"swayrider-api\",\"status\":\"ok\"}\n";
  },
  s,
)

unfoldable pub open_api_spec : {S : Type 0} → String → Headers → Handler S
open_api_spec spec headers r s = (
  record {
    status = 200;
    headers = header_set headers "Content-Type" "application/yaml";
    body = spec;
  },
  s,
)
