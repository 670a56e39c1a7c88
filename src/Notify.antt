-- ===== src/Notify.antt =====
-- trishul_snmp/notify: sending, receiving and decoding traps and informs.
pub mod Levels
pub mod V3
pub mod Reports
pub mod Varbinds
pub mod Events
pub mod Listener
pub mod Authentic
pub mod SetAside
pub mod Recovered
pub mod Acknowledged
pub mod Sender
