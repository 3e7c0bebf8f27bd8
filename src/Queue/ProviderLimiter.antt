-- ===== src/Queue/ProviderLimiter.antt =====
-- backend/src/queue/provider-limiter.ts: the permits of a provider's operation (its semaphore), its
-- rate window, and its retries behind a circuit. Times are milliseconds; each map of the limiter is
-- modelled at one key, since a call reads and writes only its own.
pub mod Semaphore
pub mod RateWindow
pub mod Retry
