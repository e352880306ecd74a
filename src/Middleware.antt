-- ===== src/Middleware.antt =====
-- internal/middleware: what a request passes before it reaches the mux.
pub mod Access
pub mod RateLimit
pub mod Auth
pub mod Logging
