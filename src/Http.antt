-- ===== src/Http.antt =====
-- The handlers of internal/app/http.go: the client's address, the guards of the routes, login, and
-- the routes for jobs and files.
pub mod ClientIp
pub mod Proxies
pub mod Guards
pub mod Access
pub mod Jobs
pub mod Sharing
pub mod Created
