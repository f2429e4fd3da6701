-- ===== src/Lib.antt =====
-- The insurance backend on Stellar: pools, policies, claims, reinsurance, reputation, notifications
-- and sessions.
--
-- A service method runs in an interactive transaction of the Prisma client (prisma.service.ts). A
-- transaction body is a function of Database.Tx, from a state of the database to a result and a new
-- state; an error carries no state, since the client rolls back. A method that also writes outside a
-- transaction is a function of Service.Io, whose state stays when it throws. The client is not in the
-- repository: Database.Defs.Table and Database.Bulk.BulkTable say what the services rely on, reads
-- that hide deleted rows, relations that do not, updates, creates and soft deletes, and
-- Database.Memory and Database.Bulk build a table that meets it.
--
-- Files and the code they are about:
--   Prelude, Database, Service: shared names, tables, the two kinds of method body
--   Model: prisma/schema.prisma, the rows, the enums and the state Db
--   Audit: src/insurance/services/audit.service.ts
--   Reputation: src/reputation, adjustReputation and the two calculators
--   Notification: prepareNotification of src/notification/services/notification.service.ts
--   Insurance/Pools: src/insurance/pool.service.ts (addCapital, lockCapital, unlockCapital)
--   Insurance/Policies: src/insurance/insurance.service.ts (purchasePolicy, cancelPolicy,
--     expirePolicy) and pricing.service.ts
--   Insurance/Claims: src/insurance/claim.service.ts (createClaim, assessClaim, payClaim and their
--     parts); Transition and Life run sequences of these operations
--   Insurance/Reinsurance: src/insurance/reinsurance.service.ts
--   Auth: src/auth/auth.service.ts and its repository (refreshTokens, logout, the session limit)
--   Indexer: src/indexer/services/ledger-tracker.service.ts and the poll cycle of
--     indexer.service.ts (getStartLedger, detectReorg, handleReorg, fetchEvents, pollEvents,
--     processEventInternal)
--   Idempotency: src/interceptors (the interceptor, its service and the nightly cleanup)
--   Resilience: src/common/resilience (withResilience and the delay between its attempts)
--   Nonce: src/nonce/nonce.service.ts (createNonce, consumeNonce, isNonceValid) through withResilience
--   Sanitization: src/common/utils/sanitization.util.ts
--   Response: src/common/interceptors/response.interceptor.ts and common/utils/serialization.util.ts
--   SoftDelete: src/prisma.soft-delete.middleware.ts (SoftDelete), prisma.soft-delete.service.ts and the
--     repositories of src/common/repositories over it (Service); Archive is the abstract store
--   XdrDecoder: src/indexer/services/xdr-decoder.service.ts, the types of event and the parsing of an
--     event (parseEvent of indexer.service.ts)
--   EventHandlers: src/indexer/services/event-handler.service.ts (Dispatch) with the repositories of
--     projects, contributions, milestones and users, and the queries of the trust score
--   Users: the deletion of a user in src/user/user.service.ts
--   Tests: concrete databases at which the theorems are applied
--
-- The policy service locks the coverage of a policy in its pool and releases it on cancellation and
-- expiry; the claim service releases the claimed amount on rejection and payment, adjusts the
-- holder's reputation and prepares a notification, all in one transaction. A purchase, an assessment
-- and a payment read their rows through the same tables. An event that the poll cycle fetches is decoded
-- into fields by the decoder of its type, validated and written to the tables by the handler of its
-- type; the cycle itself is stated over any parser and any handler.
--
-- Choices: an amount is an integer number of cents; the pricing gives a premium in hundredths of a
-- cent, and the column of a new policy rounds it to cents. A foreign key is satisfied by a deleted
-- row too. A funding amount is refused outside the 64-bit integers. Ids and texts that are only
-- compared are numbers, 0 the empty one; the time, the calendar and random bytes are arguments. The
-- delay of a backoff is in exact arithmetic. The loops are structural recursion on a list or on the
-- attempts left, but for the pages of a fetch: it is given a number of calls, since no number is
-- enough for every server. The digits of a number take fuel, one more than the number, and the
-- rounding of a number to 53 bits takes 256 steps, the bits of the widest Soroban integer. The body
-- of a request with a key is two texts, that of the body and that of what the jsonb column gives
-- back of it. Elsewhere a number is unbounded: the columns are decimals and JavaScript numbers well
-- inside their range, below 10^21 where a number is printed, and a deadline is within the range of
-- a Date.
--
-- Not modelled: the dispatch of notifications after the commit, JSON snapshots of audit rows, the
-- signing of access tokens, the loop withRetry, which no service calls, storage and encryption,
-- controllers and configuration. The cache of the nonces, the conversions of the Stellar SDK, the
-- engine of the database behind the middleware and the breaker of opossum are arguments.
pub mod Prelude
pub mod Database
pub mod Model
pub mod Audit
pub mod Service
pub mod Auth
pub mod Reputation
pub mod Notification
pub mod Resilience
pub mod Nonce
pub mod SoftDelete
pub mod XdrDecoder
pub mod Sanitization
pub mod Response
pub mod EventHandlers
pub mod Indexer
pub mod Idempotency
pub mod Insurance
pub mod Users
mod Tests
