-- ===== src/Grpc/Code.antt =====
-- The gRPC status codes (google.golang.org/grpc/codes) that the handlers and the queue name.
use swayrider_api.Base.{ℕ}

abbrev pub invalid_argument : ℕ
invalid_argument = 3

abbrev pub deadline_exceeded : ℕ
deadline_exceeded = 4

abbrev pub not_found : ℕ
not_found = 5

abbrev pub already_exists : ℕ
already_exists = 6

abbrev pub permission_denied : ℕ
permission_denied = 7

abbrev pub resource_exhausted : ℕ
resource_exhausted = 8

abbrev pub failed_precondition : ℕ
failed_precondition = 9

abbrev pub unavailable : ℕ
unavailable = 14

abbrev pub unauthenticated : ℕ
unauthenticated = 16
