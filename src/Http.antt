-- ===== src/Http.antt =====
-- src/net/http.cpp, include/apostol/http.hpp: statuses, requests as the handlers read them, and
-- responses as they are written.
pub mod Status
pub mod Response
pub mod Request
mod Tests
