-- ===== src/Lib.antt =====
-- Kopiochi is a Go service with an authentication module (modules/identity) and a notification module
-- (modules/notification), which share one Postgres database and meet in the composition root: identity
-- reports account events, and the root turns each into a notification of the outbox. This library
-- models the two modules, the smaller modules/user, and the parts of internal/ that they stand on, and
-- proves what makes them correct.
--
-- The notification module is an outbox. An event is validated (NewNotification), checked against the
-- recipient's delivery preferences and written as a pending row (Enqueue). Dispatcher workers claim due
-- rows, send them and write the outcome back (ClaimBatch, DispatchBatch, Save), with a retry schedule
-- and a budget of attempts; a sweep recovers rows whose worker was lost (ClaimStalled, Sweep).
--   Notification.Domain: modules/notification/domain. Types and Construction are the entity and its
--     constructor, Transition the status table, Outcome its methods, Backoff the schedule, Truncate the
--     cut of a failure reason, Preference and Filter the preferences. Lifecycle, Budget, Reason and
--     Schedule hold proofs.
--   Notification.Repository: modules/notification/infrastructure/persistence. The tables are lists of
--     rows; each repository method is one SQL statement, and one function on a table. What a
--     subquery with LIMIT and SKIP LOCKED picks is an argument, since it depends on other sessions.
--     Updates, Claims, Writes, Ordering, Pages, Reads and Upserts hold proofs.
--   Notification.Application: modules/notification/application. Ports are the interfaces that the
--     Service calls, over an abstract world, Dispatch is dispatch.go with its recovered panics as
--     values, Service and Setup are service.go. OverTable says what the theorems ask of the ports; the
--     other modules hold proofs.
--   Notification.Dispatcher: modules/notification/infrastructure/dispatcher/dispatcher.go, its checks,
--     drain and Sweep. Running is the life of its goroutines, from Start to the end of Stop, as a step
--     relation; Sweeping, Draining, Stopping and Returning hold proofs.
--   Notification.Senders: modules/notification/infrastructure/sender, with email_smtp.go in the child
--     Smtp; Mail holds proofs.
--   Notification.Config and Notification.Module: config.go, module.go and enqueuer.go of
--     modules/notification, what is refused and what is built; Accepted and Booting hold
--     proofs.
--   Notification.Transport: modules/notification/transport, dto.go with the handlers in the child
--     Handler. Cursors, Following, Hiding and Protecting hold proofs.
--
-- The identity module gives access tokens and refresh tokens. Login checks the password and counts
-- failures up to a lockout; a refresh token is exchanged once, for another of its family, and one that
-- is presented again ends the family (Refresh, Rotate, RevokeFamily).
--   Identity.Domain: modules/identity/domain. Lockout holds proofs.
--   Identity.Tokens: modules/identity/infrastructure/persistence/repository/refresh_token_store.go and
--     InTx of internal/db/tx.go, over the table as a list. Sessions is the interleaving of logins,
--     refreshes, detections and logouts as a step relation; the other modules hold proofs.
--   Identity.Jwt: modules/identity/infrastructure/token/jwt.go, Validate in the child Validation, and
--     Kid of modules/identity/infrastructure/token/jwks.go; Issuing holds proofs.
--   Identity.Users: modules/identity/infrastructure/persistence/repository/user_repo.go; Saving holds
--     proofs.
--   Identity.BackupCodes: modules/identity/infrastructure/persistence/repository/mfa_store.go; Spending
--     holds proofs.
--   Identity.Application: modules/identity/application. Login, Refresh and Mfa are the use cases over
--     the interfaces of Ports; the other modules hold proofs.
--   Identity.Transport: modules/identity/transport, AuthRequired and the handlers; Bearer and Cookies hold
--     proofs.
--
-- Notifier is cmd/api/notifier_adapter.go, where the two modules meet: it turns the lock of an account and
-- a new second factor into a mail and an in-app copy; Announcing holds proofs.
--
-- Profiles is modules/user, the profile that each identity has of its own; Ensuring holds proofs.
--
-- The platform is what the modules and the HTTP server stand on.
--   Platform.ClientIp: internal/middleware/clientip.go, and clientKey of internal/httpx/ratelimit.go;
--     Spoofing holds proofs.
--   Platform.RateLimit: internal/httpx/ratelimit.go. Limits, Configured and Eviction hold proofs.
--   Platform.Problem: internal/httpx/problem.go, unauthorized.go and health.go.
--   Platform.Authn: internal/authn/authn.go, the Principal of a request.
--   Platform.Lifecycle: internal/lifecycle/stack.go; Order holds proofs.
--   Platform.DbErrors: internal/db/errors.go, over errors as trees; Classes holds proofs.
--
-- Instants and durations are nanoseconds, as integers. An `int` or a Duration is an int64 where it is
-- computed with (inc, the shift of the schedule); adding a delay to an instant is exact, as for
-- time.Time. What the timestamptz column of a user's lock keeps of an instant is a parameter; the other
-- tables keep instants as they are given, where Postgres rounds to microseconds. Text is a list of bytes, and a uuid a number. Loops are structural recursion; only `drain`,
-- which ends when the outbox runs dry or on shutdown, is on fuel, and more fuel than there are due rows
-- is enough. Code that is not the repository's is a parameter: the database's errors are arguments,
-- floats, uuids, hashes, password and TOTP checks, golang-jwt, the parsers of addresses, the mail
-- encodings, the SMTP client and senders are fields of the records `Floats`, `Uuids`, `Ports`, `Jwt`,
-- `Net`, `Mime`, `Codec`, `Bodies` and `Client`.
--
-- Not modelled: HTTP routing, internal/config, logging, metrics, template rendering, key files, the rest
-- of the composition root, and the tools. Timers are not: a tick is a step that can come at any time.
mod Prelude
pub mod Identity
pub mod Notification
pub mod Platform
pub mod Notifier
pub mod Profiles
