-- ===== src/Handlers.antt =====
-- internal/handlers: the HTTP handlers.
pub mod Static
pub mod Stream
pub mod Cookies
pub mod Answers
pub mod Upstream
pub mod Search
pub mod Trip
pub mod Route
pub mod Reroute
pub mod Regions
pub mod Auth
