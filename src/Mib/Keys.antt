-- ===== src/Mib/Keys.antt =====
-- The field names of a module's JSON in trishul_snmp/mib/registry.py.
use trishul_snmp.Prelude.{[], ◌∷◌}
use trishul_snmp.Types.{Text}

abbrev pub module_name : Text
module_name = b'm' ∷ b'o' ∷ b'd' ∷ b'u' ∷ b'l' ∷ b'e' ∷ []

abbrev pub object : Text
object = b'o' ∷ b'b' ∷ b'j' ∷ b'e' ∷ b'c' ∷ b't' ∷ []

abbrev pub oid_path : Text
oid_path = b'o' ∷ b'i' ∷ b'd' ∷ b'_' ∷ b'p' ∷ b'a' ∷ b't' ∷ b'h' ∷ []

abbrev pub oid : Text
oid = b'o' ∷ b'i' ∷ b'd' ∷ []

abbrev pub object_type : Text
object_type = b'o' ∷ b'b' ∷ b'j' ∷ b'e' ∷ b'c' ∷ b't' ∷ b'_' ∷ b't' ∷ b'y' ∷ b'p' ∷ b'e' ∷ []

abbrev pub class_name : Text
class_name = b'c' ∷ b'l' ∷ b'a' ∷ b's' ∷ b's' ∷ []

abbrev pub nodetype : Text
nodetype = b'n' ∷ b'o' ∷ b'd' ∷ b'e' ∷ b't' ∷ b'y' ∷ b'p' ∷ b'e' ∷ []

abbrev pub index : Text
index = b'i' ∷ b'n' ∷ b'd' ∷ b'e' ∷ b'x' ∷ []

abbrev pub constraints : Text
constraints = b'c' ∷ b'o' ∷ b'n' ∷ b's' ∷ b't' ∷ b'r' ∷ b'a' ∷ b'i' ∷ b'n' ∷ b't' ∷ b's' ∷ []

abbrev pub syntax : Text
syntax = b's' ∷ b'y' ∷ b'n' ∷ b't' ∷ b'a' ∷ b'x' ∷ []

abbrev pub max_access : Text
max_access = b'm' ∷ b'a' ∷ b'x' ∷ b'_' ∷ b'a' ∷ b'c' ∷ b'c' ∷ b'e' ∷ b's' ∷ b's' ∷ []

abbrev pub status : Text
status = b's' ∷ b't' ∷ b'a' ∷ b't' ∷ b'u' ∷ b's' ∷ []

abbrev pub augments : Text
augments = b'a' ∷ b'u' ∷ b'g' ∷ b'm' ∷ b'e' ∷ b'n' ∷ b't' ∷ b's' ∷ []

abbrev pub description : Text
description = b'd' ∷ b'e' ∷ b's' ∷ b'c' ∷ b'r' ∷ b'i' ∷ b'p' ∷ b't' ∷ b'i' ∷ b'o' ∷ b'n' ∷ []

abbrev pub members : Text
members = b'm' ∷ b'e' ∷ b'm' ∷ b'b' ∷ b'e' ∷ b'r' ∷ b's' ∷ []

abbrev pub base_type : Text
base_type = b'b' ∷ b'a' ∷ b's' ∷ b'e' ∷ b'_' ∷ b't' ∷ b'y' ∷ b'p' ∷ b'e' ∷ []

abbrev pub display_hint : Text
display_hint =
    b'd' ∷ b'i' ∷ b's' ∷ b'p' ∷ b'l' ∷ b'a' ∷ b'y' ∷ b'_' ∷ b'h' ∷ b'i' ∷ b'n' ∷ b't' ∷ []

abbrev pub generated_by : Text
generated_by =
    b'g' ∷ b'e' ∷ b'n' ∷ b'e' ∷ b'r' ∷ b'a' ∷ b't' ∷ b'e' ∷ b'd' ∷ b'_' ∷ b'b' ∷ b'y' ∷ []

abbrev pub generated_at : Text
generated_at =
    b'g' ∷ b'e' ∷ b'n' ∷ b'e' ∷ b'r' ∷ b'a' ∷ b't' ∷ b'e' ∷ b'd' ∷ b'_' ∷ b'a' ∷ b't' ∷ []

abbrev pub schema_version : Text
schema_version =
    b's' ∷ b'c' ∷ b'h' ∷ b'e' ∷ b'm' ∷ b'a' ∷ b'_' ∷ b'v' ∷ b'e' ∷ b'r' ∷ b's' ∷ b'i' ∷ b'o' ∷ b'n'
    ∷ []

abbrev pub producer_version : Text
producer_version =
    b'p' ∷ b'r' ∷ b'o' ∷ b'd' ∷ b'u' ∷ b'c' ∷ b'e' ∷ b'r' ∷ b'_' ∷ b'v' ∷ b'e' ∷ b'r' ∷ b's' ∷ b'i'
    ∷ b'o' ∷ b'n' ∷ []

abbrev pub language : Text
language = b'l' ∷ b'a' ∷ b'n' ∷ b'g' ∷ b'u' ∷ b'a' ∷ b'g' ∷ b'e' ∷ []

abbrev pub imports : Text
imports = b'i' ∷ b'm' ∷ b'p' ∷ b'o' ∷ b'r' ∷ b't' ∷ b's' ∷ []

abbrev pub objects : Text
objects = b'o' ∷ b'b' ∷ b'j' ∷ b'e' ∷ b'c' ∷ b't' ∷ b's' ∷ []

abbrev pub notifications : Text
notifications =
    b'n' ∷ b'o' ∷ b't' ∷ b'i' ∷ b'f' ∷ b'i' ∷ b'c' ∷ b'a' ∷ b't' ∷ b'i' ∷ b'o' ∷ b'n' ∷ b's' ∷ []

abbrev pub types : Text
types = b't' ∷ b'y' ∷ b'p' ∷ b'e' ∷ b's' ∷ []

abbrev pub module_metadata : Text
module_metadata =
    b'm' ∷ b'o' ∷ b'd' ∷ b'u' ∷ b'l' ∷ b'e' ∷ b'_' ∷ b'm' ∷ b'e' ∷ b't' ∷ b'a' ∷ b'd' ∷ b'a' ∷ b't'
    ∷ b'a' ∷ []
