-- ===== src/Rpc.antt =====
-- engine/oyi_rpc: the framing of the editor channel.
pub mod Framing
