-- ===== src/Manager.antt =====
-- The manager: trishul_snmp/manager/.
pub mod Walk
pub mod Client
