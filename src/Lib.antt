-- ===== src/Lib.antt =====
-- saas-admin: licenses for desktop and SaaS products, sold by subscription, checked by an SDK.
--
-- A client activates a device, verifies it, and deactivates it (internal/service/license.go), holds
-- floating sessions (internal/service/floating.go) and reports use against quotas
-- (internal/service/usage.go). The services read and write PostgreSQL through internal/store, and
-- the middleware (internal/middleware) limits rates, tracks failed attempts and replays retried
-- requests. Files, each with the code that it models:
--
-- - Prelude: tests on numbers, lists, Go maps (Dict), tables and SQL statements (Table, Rows, Members).
-- - Apperr: pkg/apperr/errors.go. Database: statements that may fail. Model: internal/model/model.go.
-- - BruteForce: internal/middleware/bruteforce.go. RateLimit: internal/middleware/ratelimit.go.
-- - Licensing: internal/service/license.go with the store's statements on licenses and activations
--   (internal/store/store.go) and the claims of internal/license/token.go; Rules, Token, Store and
--   Service hold the definitions, Sdk the lookup that the other services share.
-- - Floating: internal/service/floating.go over internal/store/floating.go.
-- - Usage: internal/service/usage.go over internal/store/usage.go; the two requests are in Service.
-- - Idempotency: internal/middleware/idempotency.go over internal/store/idempotency.go.
-- - Seats: internal/service/seats.go over internal/store/seats.go (Seats/Table).
-- - Sessions: refresh tokens, internal/handler/oauth.go over internal/store/store.go.
-- - Releases: internal/store/release.go, with internal/service/release.go over it in Drafts, Publish,
--   Service, Feed, Download and Finalize, which also signs (internal/service/release_signing.go).
-- - Payments: the Stripe events of internal/payment/stripe.go, in Subscriptions those of subscriptions
--   and invoices, in Refunds those of charges, in Checkout and Fulfil the fulfilment of a paid session,
--   in Webhook the endpoint.
-- - Expiry: the checks that end licenses, internal/service/expiry.go.
-- - Webhooks: deliveries and their retries, internal/service/webhook.go over
--   internal/store/webhook.go.
-- - Events: the claims of Stripe events, internal/payment/stripe.go over internal/store/store.go.
--
-- State and operations. A table is the list of its rows, a Go map the function that looks a key up,
-- and a service's state a record of its tables and of what it sent. An operation takes the state and
-- returns the new one with its result; its name is the Go name in snake case. A parameter `io` says
-- for the n-th SQL statement of the operation whether it runs, so every failure of the database is
-- covered; a transaction that does not commit leaves its tables as they were. `SELECT … FOR UPDATE`
-- makes transactions on one license sequential, so a transaction is one step.
--
-- Bounds. Times and durations are natural numbers of nanoseconds. The doubling of a lockout, the
-- backoff of a delivery, the limits of quotas and what is computed from them are 64-bit patterns
-- with their wrap-around; the counters of rows and of attempts are far below it. Plan numbers are natural, as
-- validatePlanNumericBounds of internal/handler/admin.go requires. No definition uses fuel: every
-- loop of the modelled code is structural.
--
-- Parameters. The key hash, the fingerprint and the signature (ed25519), fresh ids, the clock, the
-- calendar, the float64 comparison of the quota warning, the comparison of versions (package semver),
-- ORDER BY, the links and objects of the storage, SHA-256, and Stripe's answers. A fresh id is not in its
-- table.
--
-- Not modelled: HTTP handlers and JSON, e-mail, object storage, cryptographic primitives, Stripe's
-- API, the jobs that poll Stripe, configuration and the dashboard's queries; PROJECT.json names the
-- reasons.
pub mod Prelude
pub mod Apperr
pub mod Database
pub mod Model
pub mod BruteForce
pub mod RateLimit
pub mod Licensing
pub mod Floating
pub mod Usage
pub mod Idempotency
pub mod Seats
pub mod Sessions
pub mod Events
pub mod Expiry
pub mod Webhooks
pub mod Releases
pub mod Payments
