-- ===== src/Service.antt =====
-- Running the service: subscriptions and versions (packages/contracts/src) and the limit on failed
-- attempts (apps/api/src/common/rate-limit.ts). A time is a number of milliseconds.
pub mod Billing
pub mod RateLimit
pub mod Version
