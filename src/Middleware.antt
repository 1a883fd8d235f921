-- ===== src/Middleware.antt =====
-- internal/middleware: what stands before the handlers of the API.
pub mod RateLimiter
pub mod Http
mod Tests
