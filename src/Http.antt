-- ===== src/Http.antt =====
-- http/http_conn.h: an HTTP server over connections.
pub mod Words
pub mod Status
pub mod Headers
pub mod HeaderNames
pub mod ContentTypes
pub mod Response
pub mod Reply
pub mod Dispatch
pub mod ContentLength
pub mod Body
pub mod Intake
pub mod Tables
mod Examples
pub mod Filters
pub mod HeaderLines
pub mod Request
