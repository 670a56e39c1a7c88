-- ===== src/Wire.antt =====
-- trishul_snmp/wire: the BER codec of SNMP values, PDUs and messages.
pub mod Bytes
pub mod Ber
pub mod Integers
pub mod IpAddresses
pub mod Oids
pub mod Values
pub mod Pdus
pub mod Utf8
pub mod Messages
pub mod V3Messages
