-- ===== src/Lib.antt =====
-- Braza SSO, a single-sign-on service in Go (cmd/api and internal): its handlers, the middleware
-- before them, and the stores behind them, as state-passing functions, with theorems on what they
-- promise.
--
-- The service is stateless. A request runs through middleware (internal/middleware) into a handler
-- (internal/auth, internal/oauth), which works on Redis, for all short-lived tokens and counters,
-- and on Cassandra, for accounts, clients, consents and recovery codes. Handlers share no memory,
-- so what is between two requests is the state of these servers: a `World` (World.antt), with a
-- counter of calls, the mails handed to the mailer, the logout tokens posted to relying parties, and
-- the cookies of the response being written. A request is a function from one world to the next; an
-- sequence of calls of the token store is one of such steps too (TokenStore/Reach). Server puts the handlers behind their
-- routes and middleware, and Run reads any sequence of requests as a run of a few kinds of abstract
-- steps on Redis and on the accounts. `Served` has requests one after another. An abstract step is
-- a whole method of the token store or of a repository, several remote commands where the source
-- issues several (`RevokeAllUserSessions`, `Create`). An invariant of every run thus covers requests
-- that take turns between such methods; two requests whose commands alternate within a method are
-- not modelled.
--
-- Parts, with the files that model them:
-- - TokenStore: internal/auth/token_store.go, one function per method, `consume_refresh_token` for
--   `ConsumeRefreshToken` and so on. Consume, Keys, Sessions, Revocation, Reach and Lifetime prove.
-- - User, RecoveryCodes: internal/user/repository.go and recovery_codes.go, the queries of the tables.
-- - Password: internal/auth/password.go; Policy, Format and RoundTrip prove.
-- - Jwt: internal/auth/jwt.go, but for the loading of the key (Server/Outside); Cookies:
--   internal/auth/cookie.go, with the rule on paths of browsers, Kept and SignIns on which computations
--   set cookies.
-- - Login, Register, PasswordReset, Totp, Logout, Federation: the handlers of the files of these names
--   in internal/auth. A handler takes the request's data as arguments: a JSON body or a form is
--   `none` where the code could not decode it, and so is a cookie that the request does not have.
--   Their children prove: under Login, for one, Access, Expiry, Inversion, Lockout, Pair and Rotation.
-- - Middleware: internal/middleware/auth.go and ratelimit.go, around the next handler, which takes
--   the user of the context as an argument; Context: internal/auth/context.go.
-- - Oauth: internal/oauth/client.go (Clients), handlers.go (Handlers), backchannel.go (Logout) and
--   jwks.go (Keys).
-- - Server: the routes of cmd/api/main.go with their middleware; Requests, what a handler reads of a
--   request; Routes is about what is behind which check, Browser which routes a browser sends the
--   refresh cookie to. The choice of a route is chi's, a parameter, and so is a browser's rule on
--   paths. Wiring: the structs of the repositories and, in Wiring/Handlers and Wiring/Deps, of the
--   handlers, with their constructors, all over the types of what they are made of, since fields of
--   the source are interfaces. Outside and Start: `main` up to listening, `NewTokenService` and
--   `NewFederationHandler`; Start/Wired is about why the model's handlers take one `Config` and
--   one `World`. Shutdown: how the process ends.
-- - Run: the step relation `Act` and its closure `Run S n`, in which each token that is stored was
--   drawn at tick n or later; Keys, Ticks, Combine and Calls are about single steps and calls;
--   SignIn, Account, Guards, Partners and Requests show that the handlers are runs of it. Linked and
--   Tracked are invariants of every run. Over follows one key of Redis through a run; Week and Once
--   use it, Once for the tokens that are good once.
-- - Connections: internal/db/cassandra.go and internal/cache/redis.go.
-- - Settings: internal/config/config.go; RegisterClient: cmd/register-client/main.go; Email:
--   internal/email/email.go up to the call of net/smtp.
-- - Go: what the code uses of Go's standard library that matters to a theorem: strings, strconv,
--   utf8, fmt and base64, on lists of byte codes.
-- - Env: the services that the repository does not hold, as records of operations (Redis, Table,
--   Services) with their documented behaviour as laws, and Memory, one instance that meets them all.
-- - Prelude, Model, Http: shared types, error results, tests, records and responses; Http/Documents,
--   the JSON of the responses.
-- - Tests: the theorems at concrete requests.
--
-- Failures: each remote call has a fate, `delivered`, `lost` (an error, and nothing was done) or
-- `late` (an error, though the server has done its part), as a function of the call's number, and so
-- are the time and the random bytes. A theorem without a hypothesis on the fates holds for all of
-- them. A pipeline is one call; two commands sent one after the other are two.
--
-- Bounds: recursion is on lists, on texts, and on the number of recovery codes; only `decimal`
-- (Go/Fmt) runs on fuel, one more than the number it prints, and a number has no more digits than
-- that. Numbers are natural numbers; `% 256` and `% 2 ^ 32` stand where the code converts to uint8
-- and uint32, and a scanned number that does not fit into uint32 is an error, as in Sscanf. Time is
-- in whole seconds from 0, and so is every time to live: the access token's is a `time.Duration` in
-- jwt.go, which may also be a part of a second or negative, and those are left out. A `Uuid` is a
-- natural number, without the bound of the source's 16 bytes; Run/Linked assumes only that the
-- identifiers drawn up to its state differ from each other.
--
-- Not modelled: logging, the sending of a message (net/smtp) and the frontend. Parameters are Argon2,
-- SHA-256, signing and checking of tokens, TOTP, UUIDs, Google's endpoints, bcrypt, the sessions of
-- gocql, Redis's PING, files, PEM and X.509, chi's choice of a route, a browser's rule on cookie
-- paths, `time.ParseDuration`, JSON of authorization codes and logout tokens, net/http's client, URLs,
-- and the tables of package unicode. `strings.ToLower`, `TrimSpace` and `Fields` are those of ASCII
-- text. Argon2 panics for a stored hash whose time or parallelism is 0; the model has no such case.
-- Mails and posts sent from goroutines are recorded at once. Response headers other than cookies are
-- left out.
pub mod Prelude
pub mod Model
pub mod Env
pub mod World
pub mod Go
pub mod TokenStore
pub mod User
pub mod Password
pub mod Jwt
pub mod Http
pub mod Login
pub mod Context
pub mod Cookies
pub mod Register
pub mod RegisterClient
pub mod PasswordReset
pub mod RecoveryCodes
pub mod Totp
pub mod Middleware
pub mod Oauth
pub mod Logout
pub mod Federation
pub mod Server
pub mod Settings
pub mod Email
pub mod Connections
pub mod Run
pub mod Tests
