-- ===== src/Server.antt =====
-- engraphy/server: from a request with a bearer token to the call of a tool.

pub mod Auth
pub mod RateLimit
pub mod Wire
pub mod Aliases
pub mod Errors
pub mod Registry
pub mod Limits
pub mod Funnel
pub mod Http
