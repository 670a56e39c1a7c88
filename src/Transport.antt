-- ===== src/Transport.antt =====
-- The transport: trishul_snmp/transport/.
pub mod Dispatcher
