-- ===== src/Responder.antt =====
-- trishul_snmp/responder: the read-only responder and its object sources.
pub mod Rules
pub mod Bisect
pub mod Sources
pub mod Server
