-- ===== src/Conn.antt =====
-- core/include/conn.h: one connection of an event loop, its registration with epoll, and its status.
-- State holds the operations; the other children prove.
pub mod State
pub mod Status
mod Examples
