-- ===== src/Mib.antt =====
-- trishul_snmp/mib: names, records, the registry of loaded modules, and what is rendered with them.
pub mod Names
pub mod Json
pub mod Models
pub mod Keys
pub mod Fields
pub mod Payload
pub mod Registry
pub mod Bundle
pub mod Display
pub mod Render
pub mod Targets
