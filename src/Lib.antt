-- ===== src/Lib.antt =====
-- A verification library of the developer platform's backend, a NestJS service for organizations
-- that publish and use HTTP APIs.
--
-- The program. An organization has members with roles, a plan and a rate limit. Its applications
-- hold API keys, which the gateway accepts; each accepted request counts against the
-- organization's limit for the minute. Billing keeps one subscription for each organization, bills
-- the requests of a month, and follows Stripe's webhooks; a plan change also sets the plan and the
-- limit of the organization, and drops the copy of the limit that the rate limiter keeps in Redis.
-- Events of an organization are delivered to its webhooks through a queue. Feature flags switch
-- parts of this on and off. A marketplace sells the APIs of publishers to subscribers,
-- notifications fan out over channels, and the gateway logs every request that it answers or
-- refuses.
--
-- The parts, with the files of the repository that they model:
--
-- - Enums: src/common/enums. Users: src/users.
-- - Organizations: src/organizations/organizations.service.ts (find_one, assert_type, add_member,
--   get_membership_or_throw, get_rate_limit, update_rate_limit; apply_update is the branching of
--   updateRateLimit). Organizations/Guard: guards/org-roles.guard.ts.
-- - Slug: the slug of a name, as generateUniqueSlug and uniqueSlug make it.
--   Organizations/Creation: create and generateUniqueSlug. Organizations/Listing:
--   findMyOrganizations and listMembers.
-- - RateLimit: src/rate-limit, the service (get_limit, consume) and the guard (can_activate).
-- - Applications: src/applications/applications.service.ts. ApiKeys:
--   src/api-keys/api-keys.service.ts; ApiKeys/Guard: guards/api-key.guard.ts.
-- - Billing: src/billing/billing.service.ts, subscriptions, usage and invoices. Billing/Terms:
--   billing.constants.ts. Billing/Stripe: stripe.service.ts. Billing/Payments: checkout, portal,
--   payouts, confirmCheckout and activateFromStripe. Billing/Events: handleStripeEvent, one clause
--   for each type of event that it tells apart.
-- - Webhooks: src/webhooks/webhooks.service.ts. Webhooks/Worker: webhooks.processor.ts (process,
--   with attempt for its second half and settle for its try and catch, and on_failed).
--   Webhooks/Job: the attempts of a job, as BullMQ documents them; no other operation comes
--   between two attempts.
-- - FeatureFlags: src/feature-flags, the service, the catalogue and the guard.
-- - Auth: src/auth, login of auth.service.ts and the strategy that turns a token into a user.
--   Auth/Register: register, with the producer of welcome mails.
-- - Marketplace: src/marketplace/marketplace.service.ts: publish, the two lists of APIs and the
--   lookup. Marketplace/Subscriptions: subscribe (begin_checkout is its paid branch),
--   confirmSubscription, activateSubscription, handleStripeEvent and unsubscribe.
--   Marketplace/Earnings: getEarnings. Marketplace/Steps: these operations in any order.
-- - Gateway: src/gateway with src/api-logs/api-logs.service.ts: `serve` is the logging middleware
--   around `pipeline`, the two guards, the controller (dispatch) with the service (route), and the
--   interceptor, in the order in which NestJS runs them; a clock that goes back between the start
--   and the end of a request is left out. ErrorFilter: src/common/filters.
-- - Notifications: src/notifications, the service, the listener, the dispatcher with its senders,
--   and the worker. The events of the rate limiter and of the webhooks are values of the types
--   that those modules emit.
-- - DeveloperPortal: src/developer-portal/developer-portal.service.ts. Paths: what split, filter
--   and join do to a path. Coverage: what the collection contains.
-- - Prelude, Orm and Redis: what the components share.
--
-- A method is a function from its arguments and a state to a result and a state (Prelude/Action):
-- a throw is a value of HttpError, with the message of the source, and keeps what was saved before
-- it. Names are those of the source in snake case. `now`, random secrets and the answer of `fetch`
-- are arguments.
--
-- Parameters. Orm stands for the repositories of TypeORM, with laws for save, remove, findOne and
-- find by condition, which gives each row once; which of several matching rows findOne gives, and
-- the order of find, are left open. Redis stands for the client, with laws for GET, SET with EX,
-- INCR, EXPIRE and DEL. StripeSdk stands for the SDK, each call an action that may fail. Calendar,
-- Rounding, KeyEnv, WebhookEnv, WorkerEnv and AuthEnv stand for Date, toFixed, SHA-256, JSON,
-- HMAC, fetch, bcrypt and JWT; `uuid` for isUUID; Texts for toLowerCase, trim and the numerals of
-- a template literal; `to_upper_case` for toUpperCase; Hashing for bcrypt.hash. Each has a
-- concrete instance, on which the tests run.
--
-- Numbers. Keys are natural numbers in place of uuids. Times are milliseconds in RateLimit and
-- ApiKeys, and whatever the calendar measures in Billing. Prices and costs are in cents; the rate
-- of the overage, a column with four decimals, and the costs before rounding are in
-- ten-thousandths of a dollar, where every product of computeBill is exact. Subtraction stops at
-- 0, as Math.max(0, x) does in the source. Loops are by recursion on lists, but for the search for
-- a slug, which has as many rounds as the table has rows and one more: the numbered slugs all
-- differ, so one of them is free.
--
-- Not modelled: one call runs to its end before the next starts, so interleavings of concurrent
-- requests are left out, and so are failures of the database, of its log of requests and of Redis,
-- and what the database deletes along with a row (the keys of a removed application). Most lists
-- that only read and format rows, controllers, validation of request bodies, modules,
-- configuration and logging are left out. Analytics, audit, widgets and health probes are not
-- modelled.
pub mod Prelude
pub mod Orm
pub mod Redis
pub mod DeveloperPortal
pub mod Enums
pub mod Slug
pub mod Users
pub mod Organizations
pub mod RateLimit
pub mod Billing
pub mod Applications
pub mod ApiKeys
pub mod Webhooks
pub mod FeatureFlags
pub mod Auth
pub mod Marketplace
pub mod ErrorFilter
pub mod Gateway
pub mod Notifications
