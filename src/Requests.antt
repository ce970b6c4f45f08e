-- ===== src/Requests.antt =====
-- src/requests/http: the requests that the simulator plays.
mod Tests
pub mod World
pub mod Get
pub mod Put
pub mod Search
