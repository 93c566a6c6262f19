-- ===== src/Single.antt =====
-- core/conv_single.h: the event loop of the single-reactor model. Server holds its members and
-- operations, Loop the loop, Workers the loop with the threads of its pool; the other children prove.
pub mod Server
pub mod Loop
pub mod Workers
pub mod Turns
pub mod Invariants
pub mod Counting
pub mod Ownership
pub mod Safety
pub mod AcceptFailure
pub mod Startup
pub mod Settings
mod Examples
