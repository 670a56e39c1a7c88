-- ===== src/Security.antt =====
-- trishul_snmp/security/usm.py: the user-based security of SNMPv3.
pub mod Keys
pub mod Privacy
pub mod Usm
pub mod Accepts
pub mod Sealed
pub mod Stamped
pub mod RoundTrip
pub mod Discovery
pub mod Authentic
pub mod Discovered
