-- ===== src/Net.antt =====
-- engine/oyi_net: network identities and client prediction.
pub mod NetworkIdMap
pub mod Prediction
