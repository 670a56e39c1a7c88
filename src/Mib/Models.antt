-- ===== src/Mib/Models.antt =====
-- trishul_snmp/mib/models.py: the normalized records of a module.
use trishul_snmp.Prelude.{List, [], ◌∷◌, ◌++◌, Option}
use trishul_snmp.Types.{Oid, Text}
use trishul_snmp.Dict.{Dict}
use trishul_snmp.Mib.Json.{Json, Fields}

pub record MibMemberRef : Type 0 where
  pub module_name : Text
  pub object : Text

pub record MibNode : Type 0 where
  pub module_name : Text
  pub name : Text
  pub oid : Oid
  pub class_name : Text
  pub object_type : Text
  pub nodetype : Option Text
  pub syntax : Option Text
  pub max_access : Option Text
  pub status : Option Text
  pub index : Option (List Text)
  pub augments : Option Text
  pub description : Option Text
  pub members : Option (List MibMemberRef)
  pub constraints : Option Fields

pub record MibTypeRecord : Type 0 where
  pub module_name : Text
  pub name : Text
  pub class_name : Text
  pub base_type : Option Text
  pub display_hint : Option Text
  pub status : Option Text
  pub constraints : Option Fields

pub record MibModuleRecord : Type 0 where
  pub module_name : Text
  pub language : Option Text
  pub generated_by : Text
  pub generated_at : Option Text
  pub schema_version : Option Text
  pub producer_version : Option Text
  pub imports : Dict (List Text)
  pub objects : Dict MibNode
  pub notifications : Dict MibNode
  pub types : Dict MibTypeRecord
  pub module_metadata : List (Text × Json)

-- `mapping.values()`
unfoldable pub values {ℓ} : {V : Type ℓ} → Dict V → List V
values [] = []
values ((k, v) ∷ d) = v ∷ values d

unfoldable pub iter_nodes : MibModuleRecord → List MibNode
unfolding values
iter_nodes record' = values record'.objects ++ values record'.notifications
