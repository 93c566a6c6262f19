-- ===== src/Multi.antt =====
-- The multi-reactor model: core/include/reactor.h and core/include/acceptor.h. Reactor holds the members
-- of a reactor and what its loop does with one connection, Work the loop, Workers the loop with the threads of its pool, Acceptor the choice of a
-- reactor for a new connection; the others prove.
pub mod Reactor
pub mod Work
pub mod Acceptor
pub mod Count
pub mod Workers
pub mod Turns
pub mod Choice
pub mod Load
pub mod Startup
pub mod Settings
mod Examples
