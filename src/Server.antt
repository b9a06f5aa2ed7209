-- ===== src/Server.antt =====
-- Package server: its middleware, its rate limiter and the checks of its options.
pub mod Routes
pub mod RateLimit
pub mod Middleware
pub mod Options
pub mod Startup
pub mod RequestIds
pub mod Chain
