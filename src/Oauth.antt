-- ===== src/Oauth.antt =====
-- internal/oauth: the clients and consents of client.go, the endpoints of handlers.go, and the key
-- set of jwks.go.
pub mod Clients
pub mod Consents
pub mod Handlers
pub mod Exchange
pub mod Grant
pub mod Credentials
pub mod Authorize
pub mod Keys
pub mod Logout
