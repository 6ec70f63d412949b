-- ===== src/Requests.antt =====
-- What stands around every request: the rate limiter, pages and locks.
pub mod RateLimiter
pub mod Pagination
pub mod Lock
