-- ===== src/Mib/Bundle.antt =====
-- trishul_snmp/mib/bundle.py: the iterations and the search over a bundle, whose other methods are
-- those of its registry.
use trishul_snmp.Prelude.{
  ℕ, List, [], ◌∷◌, ◌++◌, Option, none, some, Bool, true, false, ◌&&◌, ◌||◌, leb, ◌==◌, seq_eq,
  if◌then◌else◌, length,
}
use trishul_snmp.Types.{Text}
use trishul_snmp.Dict.{Dict}
use trishul_snmp.Mib.Models.{MibNode, MibModuleRecord, values}
use trishul_snmp.Mib.Registry.{MibRegistry}
use trishul_snmp.Mib.Display.{text_is, object_type_type}

-- `option is not None and value != option` is false.
unfoldable pub passes_filter : Option Text → Text → Bool
unfolding seq_eq
passes_filter none value = true
passes_filter (some wanted) value = seq_eq value wanted

unfoldable pub filter_type : Option Text → List MibNode → List MibNode
unfolding passes_filter
filter_type type_filter [] = []
filter_type type_filter (node ∷ nodes) =
    let rest = filter_type type_filter nodes in
    if passes_filter type_filter node.object_type then node ∷ rest else rest

-- The nodes that `nodes_of` lists for the modules named `module_name`, or for all of them.
unfoldable pub iter_modules :
    (MibModuleRecord → List MibNode) → Option Text → Dict MibModuleRecord → List MibNode
unfolding passes_filter
iter_modules nodes_of module_name [] = []
iter_modules nodes_of module_name ((mod_name, mod_record) ∷ rest) =
    let later = iter_modules nodes_of module_name rest in
    if passes_filter module_name mod_name then nodes_of mod_record ++ later else later

unfoldable pub iter_objects : MibRegistry → Option Text → Option Text → List MibNode
unfolding iter_modules filter_type values
iter_objects s module_name type_filter =
    iter_modules (λ mod_record. filter_type type_filter (values mod_record.objects)) module_name
      s.modules

unfoldable pub iter_notifications : MibRegistry → Option Text → List MibNode
unfolding iter_modules values
iter_notifications s module_name =
    iter_modules (λ mod_record. values mod_record.notifications) module_name s.modules

-- `needle in text`
unfoldable pub starts_with : Text → Text → Bool
starts_with [] text = true
starts_with (c ∷ needle) [] = false
starts_with (c ∷ needle) (d ∷ text) = c == d && starts_with needle text

unfoldable pub is_substring : Text → Text → Bool
unfolding starts_with
is_substring needle [] = starts_with needle []
is_substring needle (d ∷ text) = starts_with needle (d ∷ text) || is_substring needle text

abbrev pub notification_type : Text
notification_type =
    b'N' ∷ b'O' ∷ b'T' ∷ b'I' ∷ b'F' ∷ b'I' ∷ b'C' ∷ b'A' ∷ b'T' ∷ b'I' ∷ b'O' ∷ b'N' ∷ b'-' ∷ b'T'
    ∷ b'Y' ∷ b'P' ∷ b'E' ∷ []

unfoldable pub candidates : Option Text → MibModuleRecord → List MibNode
unfolding text_is values
candidates type_filter mod_record =
    (if text_is notification_type type_filter then [] else values mod_record.objects)
    ++ (if text_is object_type_type type_filter then [] else values mod_record.notifications)

-- `lower` is the method of str.
module _ (lower : Text → Text) where
  unfoldable pub matches_description : Text → Option Text → Bool
  unfolding is_substring
  matches_description needle none = false
  matches_description needle (some description) = is_substring needle (lower description)

  unfoldable pub is_hit : Text → Option Text → MibNode → Bool
  unfolding passes_filter is_substring matches_description
  is_hit needle type_filter node =
      passes_filter type_filter node.object_type
      && (is_substring needle (lower node.name) || matches_description needle node.description)

  -- The loop over the candidates: the results, and whether the limit has been reached.
  unfoldable pub search_nodes :
      Text → Option Text → ℕ → List MibNode → List MibNode → Bool × List MibNode
  unfolding is_hit
  search_nodes needle type_filter limit [] results = (false, results)
  search_nodes needle type_filter limit (node ∷ nodes) results =
      let found = results ++ (node ∷ []) in
      let skip = search_nodes needle type_filter limit nodes results in
      let take_it = search_nodes needle type_filter limit nodes found in
      if is_hit needle type_filter node
      then (if leb limit (length found) then (true, found) else take_it)
      else skip

  unfoldable pub search_modules :
      Text → Option Text → Option Text → ℕ → Dict MibModuleRecord → List MibNode → List MibNode
  unfolding passes_filter candidates search_nodes
  search_modules needle module_name type_filter limit [] results = results
  search_modules needle module_name type_filter limit ((mod_name, mod_record) ∷ rest) results =
      let (full, found) =
        search_nodes needle type_filter limit (candidates type_filter mod_record) results in
      let skip = search_modules needle module_name type_filter limit rest results in
      let more = search_modules needle module_name type_filter limit rest found in
      if passes_filter module_name mod_name then (if full then found else more) else skip

  unfoldable pub search : MibRegistry → Text → Option Text → Option Text → ℕ → List MibNode
  unfolding search_modules
  search s query module_name type_filter limit =
      search_modules (lower query) module_name type_filter limit s.modules []
