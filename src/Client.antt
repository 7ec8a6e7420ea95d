-- ===== src/Client.antt =====
-- src/api/client.py: the HTTP client of the API, its circuit breaker and its retries.
pub mod Breaker
pub mod Request
pub mod WebSocket
