-- ===== src/Api.antt =====
-- services/api/api: what stands in front of the endpoints.
pub mod RateLimit
pub mod TestMatches
mod Tests
mod EndpointTests
