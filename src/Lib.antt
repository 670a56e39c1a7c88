-- ===== src/Lib.antt =====
-- A verification library for trishul_snmp, a Python SNMP runtime: its wire codec, the community
-- security of SNMPv2c and the user-based security of SNMPv3, the read-only responder with its
-- in-memory source, the request dispatcher, the manager's walk, traps and informs from both sides, and
-- the registry of MIB modules.
--
-- The parts and their files:
--   * Types: trishul_snmp/types.py. `SnmpValue` has a constructor for each class of values; an OID is
--     a list of natural numbers, a text the list of its code points.
--   * Prelude: shared names, native integers, exceptions as the error of `Result`
--     (trishul_snmp/errors.py), Python's order on tuples. Dict: Python's dict as a list of entries.
--   * Wire.Ber: trishul_snmp/wire/ber.py. Wire.Integers, Wire.IpAddresses, Wire.Oids and Wire.Values:
--     trishul_snmp/wire/asn1.py. Wire.Pdus: trishul_snmp/wire/pdu.py. Wire.Messages:
--     trishul_snmp/wire/message.py and trishul_snmp/security/community.py. Wire.V3Messages:
--     trishul_snmp/wire/v3message.py. Wire.Bytes and Wire.Utf8 are the built-in operations on bytes
--     and texts that these call.
--   * Responder.Rules: trishul_snmp/responder/rules.py. Responder.Bisect: the binary search that the
--     source imports. Responder.Sources: trishul_snmp/responder/sources.py. Responder.Server:
--     trishul_snmp/responder/server.py.
--   * Manager.Walk: trishul_snmp/manager/walk.py. Manager.Client: trishul_snmp/manager/client.py.
--   * Transport.Dispatcher: trishul_snmp/transport/dispatcher.py, over `send` and `receive` of the client of
--     trishul_snmp/transport/udp.py, whose socket is given by what its calls do (`send_results`, `Arrival`).
--   * Security: trishul_snmp/security/usm.py. Security.Keys has the state `UsmModel`, the keys and the
--     tag, Security.Privacy the encryption, Security.Usm `wrap_pdu` and `unwrap_message`,
--     Security.Discovery `prepare`. Security.Authentic, Security.Accepts,
--     Security.Sealed, Security.Stamped, Security.RoundTrip and Security.Discovered are about these.
--   * Mib: trishul_snmp/mib. Mib.Names, Mib.Registry and Mib.Display are the names, the indexes and
--     the display policy of registry.py; Mib.Json, Mib.Keys, Mib.Fields and Mib.Payload its validation
--     of a module's JSON; Mib.Models, Mib.Bundle and Mib.Render the files of these names, with
--     `to_display_string` of trishul_snmp/types.py; Mib.Targets is trishul_snmp/_runtime.py.
--   * Notify: trishul_snmp/notify. Notify.Levels, Notify.V3 and Notify.Reports: v3.py. Notify.Varbinds and
--     Notify.Sender: client.py. Notify.Events: events.py. Notify.Listener: listener.py, over the list of the
--     datagrams that arrive.
--   * Tests: runs at concrete inputs, and the theorems applied to them.
-- A datagram goes through `decode_message` to `handle_datagram`, which tests the community, looks the
-- objects up in a `ResponderSource` (a record of operations, which `in_memory` fills) and gives the
-- reply to `encode_message`. Each operation takes the state and returns it with its result; an
-- exception is the error of a `Result`.
--
-- Bounds and fuel: `encode_tlv` is inverted on encodings shorter than 2^32 bytes (`Fits`), far above a
-- datagram. The loops of the decoders run on the length of their input as fuel; `Ends` states that a
-- result is not the one of a loop that ran out of it. The walk runs on fuel, with a theorem on how
-- much is enough.
--
-- Parameters: the digests and the cipher (`Crypto`) and the random bytes of an encryption, `lower`
-- and `isprintable` of Python's texts, the normalisation of targets, the random source, the clocks
-- and the rules and value types of other modules (`Environment`), the source of a responder, the
-- security model of a dispatcher and the request function of a walk.
--
-- Not modelled: the state that an exception leaves in a source, sockets but for what their calls
-- do, the opening and closing of sessions and listeners, the discovery that the first SNMPv3 inform
-- of a notifier starts, the loading of bundles from files, `to_dict` of an event, the command line
-- and the maintenance scripts. Texts that are split, stripped or read as numbers are ASCII texts.
pub mod Prelude
pub mod Types
pub mod Dict
pub mod Wire
pub mod Responder
pub mod Manager
pub mod Transport
pub mod Notify
pub mod Security
pub mod Mib
pub mod Tests
