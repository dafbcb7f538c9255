-- ===== src/Http.antt =====
-- The directory HTTP: requests, their parser, responses, and the server's handlers.
pub mod Request
pub mod Context
pub mod Response
pub mod Server
pub mod Connection
mod Tests
