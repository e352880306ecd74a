-- ===== src/Examples/Access.antt =====
-- A request without claims to the registered routes of internal/server, and the answers to errors.
use swayrider_api.Base.{
  ℕ, String, ◌≡◌, refl, ◌⊎◌, inl, inr, true, false, none, some, [], In, has_prefix, ends_with,
}
use swayrider_api.Http.{Request, Handler, no_context, http_error}
use swayrider_api.Middleware.Access.{unauthorized, forbidden, forbidden_email}
use swayrider_api.Server.{Entry, routes, entry, administrator, verified_user, fits, serve}
use swayrider_api.Server.Guards.{serve-admin, serve-user}
use swayrider_api.Grpc.{GoError, err_body, reason_of, grpc_status, grpc_err_to_job_error}
use swayrider_api.Grpc.Sanitized.{KnownReason, err_body-sanitized}

-- Handlers that count their calls.
abbrev counting : String → Handler ℕ
counting name r s = (http_error name 200 [], s)

abbrev anonymous : String → String → Request
anonymous method path = record {
  method = method;
  path = path;
  remote_addr = "10.0.0.1:4000";
  tls = false;
  headers = [];
  body_limit = none;
  ctx = no_context;
}

abbrev whois : Entry
whois = entry "POST" "/api/v1/auth/admin/whois" administrator "auth.WhoIs"

abbrev tiles : Entry
tiles = entry "" "/v1/tiles/" verified_user "s.tiles"

whois-In : In whois routes
unfolding routes
whois-In = inr (
    inr (
      inr (
        inr (
          inr (
            inr (
              inr (
                inr (
                  inr (
                    inr (
                      inr (
                        inr (
                          inr (
                            inr (
                              inr (
                                inr (
                                  inr (
                                    inr (
                                      inr (
                                        inr (
                                          inr (
                                            inr (
                                              inr (
                                                inr (
                                                  inr (
                                                    inr (
                                                      inr (
                                                        inr (
                                                          inr (
                                                            inr (
                                                            inr (
                                                            inr (
                                                            inr (
                                                            inr (
                                                            inr (
                                                            inl
                                                            refl)))))))))))))))))))))))))))))))))))

tiles-In : In tiles routes
unfolding routes
tiles-In = inr (
    inr (
      inr (
        inr (
          inr (
            inr (
              inr (
                inr (
                  inr (
                    inr (
                      inr (
                        inr (
                          inr (
                            inr (
                              inr (
                                inr (
                                  inr (
                                    inr (
                                      inr (
                                        inr (
                                          inr (
                                            inr (
                                              inr (
                                                inr (
                                                  inr (
                                                    inr (
                                                      inr (
                                                        inr (
                                                          inr (
                                                            inr (
                                                            inr (
                                                            inr (
                                                            inl refl))))))))))))))))))))))))))))))))

whois-fits : fits whois (anonymous "POST" "/api/v1/auth/admin/whois") ≡ true
unfolding fits ends_with has_prefix
whois-fits = refl

whois-below : has_prefix "/api/v1/auth/admin/whois" "/api/v1/auth/admin/" ≡ true
unfolding has_prefix
whois-below = refl

tiles-fits : fits tiles (anonymous "GET" "/v1/tiles/1/2/3") ≡ true
unfolding fits ends_with has_prefix
tiles-fits = refl

tiles-below : has_prefix "/v1/tiles/1/2/3" "/v1/tiles/" ≡ true
unfolding has_prefix
tiles-below = refl

serve-admin_example :
    ((serve counting whois (anonymous "POST" "/api/v1/auth/admin/whois") 7).1 ≡ 7)
    × (((serve counting whois (anonymous "POST" "/api/v1/auth/admin/whois") 7).0 ≡ unauthorized)
        ⊎ ((serve counting whois (anonymous "POST" "/api/v1/auth/admin/whois") 7).0 ≡ forbidden))
serve-admin_example =
    serve-admin counting whois (anonymous "POST" "/api/v1/auth/admin/whois") 7 whois-In whois-fits
      whois-below refl

serve-user_example :
    ((serve counting tiles (anonymous "GET" "/v1/tiles/1/2/3") 7).1 ≡ 7)
    × (((serve counting tiles (anonymous "GET" "/v1/tiles/1/2/3") 7).0 ≡ unauthorized)
        ⊎ ((serve counting tiles (anonymous "GET" "/v1/tiles/1/2/3") 7).0 ≡ forbidden_email))
serve-user_example =
    serve-user counting "/v1/tiles/" tiles (anonymous "GET" "/v1/tiles/1/2/3") 7
      (inr (inr (inr refl))) tiles-In tiles-fits tiles-below refl

abbrev code_name : ℕ → String
code_name n = "NotFound"

abbrev secret : String → GoError
secret text = record { code = 5; message = some text; text = text }

same_reason :
    (err_body code_name (secret "row 7 missing")).reason
    ≡ (err_body code_name (secret "no such key")).reason
unfolding err_body reason_of has_prefix
same_reason = refl

err_body-sanitized_example :
    (err_body code_name (secret "row 7 missing") ≡ err_body code_name (secret "no such key"))
    × (grpc_status (some (secret "row 7 missing")) ≡ grpc_status (some (secret "no such key")))
    × (grpc_err_to_job_error (some (secret "row 7 missing"))
        ≡ grpc_err_to_job_error (some (secret "no such key")))
    × KnownReason (err_body code_name (secret "row 7 missing")).reason
err_body-sanitized_example =
    err_body-sanitized code_name (secret "row 7 missing") (secret "no such key") refl same_reason
