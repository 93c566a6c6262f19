-- ===== src/Socket.antt =====
-- core/include/socket_io.h and core/include/utils.h: the byte stream of one connection. State holds
-- the members and what the system calls answer, Sending and Receiving the operations; the other
-- children prove.
pub mod State
pub mod Sending
pub mod Receiving
pub mod Delivery
pub mod Resumption
pub mod SendErrors
pub mod Reception
pub mod ReceiveErrors
pub mod Framing
mod Examples
