-- ===== src/Http.antt =====
-- What runs before a controller: API keys and the rate limit (src/auth/, src/common/).
pub mod ApiKey
pub mod Throttle
pub mod Bucket
pub mod Windows
pub mod Limit
pub mod Refused
