-- ===== src/Ws.antt =====
-- ippop/ws: what the pop decides and counts between its clients and the tunnels of the nodes.
pub mod Rules
pub mod Traffic
pub mod SignIn
pub mod Tunnel
pub mod Sessions
pub mod Switch
pub mod Scheduler
pub mod Samples
mod Tests
mod SessionTests
