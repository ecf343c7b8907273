-- ===== src/Client.antt =====
-- client: the program of a node.
pub mod Tunnel
