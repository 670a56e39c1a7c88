-- ===== src/Mib/Names/Symbolic.antt =====
-- `parse_symbolic_target` and `resolve_symbolic` read what `OidMatch.symbolic` prints.
use trishul_snmp.Prelude.{
  ℕ, [], ◌∷◌, ◌++◌, map, ◌≡◌, ◌∙◌, refl, sym, ap, arith, Bool, true, false, not, ◌&&◌, none, some,
  ok, if◌then◌else◌, ◌==◌, append_assoc,
}
use trishul_snmp.Types.{Oid, Text, OidMatch}
use trishul_snmp.Wire.IpAddresses.{split, join, decimal}
use trishul_snmp.Wire.IpAddresses.RoundTrip.{has_no_dot}
use trishul_snmp.Mib.Models.{MibNode}
use trishul_snmp.Mib.Names.{
  oid_to_string, is_blank, strip, strip_dots, parse_oid, is_digits, all_numeric,
  is_numeric_oid_text, cons_front, partition_colons, split_dot, parse_suffixed, parse_remainder,
  parse_symbolic_target, symbolic_name,
}
use trishul_snmp.Mib.Names.Digits.{all_digits-decimal, is_blank-decimal}
use trishul_snmp.Mib.Names.RoundTrip.{
  all_plain-join, split-join, strip-plain, strip_dots-digit, oid_to_string-cons,
  parse_oid-oid_to_string,
}
use trishul_snmp.Mib.Registry.{MibRegistry, resolve_node, resolve_symbolic, lookup_arcs}
use trishul_snmp.Mib.Registry.Consistent.{IsConsistent}
use trishul_snmp.Mib.Registry.Longest.{lookup_arcs-prefix}
use trishul_snmp.Mib.Display.{with_suffix, symbolic}

unfoldable pub has_no_colon : Text → Bool
has_no_colon [] = true
has_no_colon (c ∷ text) = not (c == b':') && has_no_colon text

partition_colons-name :
    (name rest : Text)
    → has_no_colon name ≡ true
    → partition_colons (name ++ (b':' ∷ b':' ∷ rest)) ≡ some (name, rest)
unfolding partition_colons has_no_colon
partition_colons-name [] rest h = refl
partition_colons-name (c ∷ []) rest h =
    let colon : (c == b':') ≡ false = ground arith in rw colon refl
partition_colons-name (c ∷ d ∷ name) rest h =
    let colon : (c == b':') ≡ false = ground arith in
    let later : has_no_colon (d ∷ name) ≡ true = ground arith in
    ap
      (λ b.
        if b && d == b':'
        then some ([], name ++ (b':' ∷ b':' ∷ rest))
        else cons_front c (partition_colons (d ∷ name ++ (b':' ∷ b':' ∷ rest))))
      colon
    ∙ ap (cons_front c) (partition_colons-name (d ∷ name) rest later)

split_dot-none : (symbol : Text) → has_no_dot symbol ≡ true → split_dot symbol ≡ none
unfolding split_dot has_no_dot
split_dot-none [] h = refl
split_dot-none (c ∷ symbol) h =
    let dot : (c == b'.') ≡ false = ground arith in
    let later : has_no_dot symbol ≡ true = ground arith in
    rw dot (ap (cons_front c) (split_dot-none symbol later))

split_dot-some :
    (symbol rest : Text)
    → has_no_dot symbol ≡ true
    → split_dot (symbol ++ (b'.' ∷ rest)) ≡ some (symbol, rest)
unfolding split_dot has_no_dot
split_dot-some [] rest h = refl
split_dot-some (c ∷ symbol) rest h =
    let dot : (c == b'.') ≡ false = ground arith in
    let later : has_no_dot symbol ≡ true = ground arith in
    rw dot (ap (cons_front c) (split_dot-some symbol rest later))

all_numeric-decimal : (oid : Oid) → all_numeric (map decimal oid) ≡ true
unfolding all_numeric is_digits
all_numeric-decimal [] = refl
all_numeric-decimal (a ∷ oid) =
    rw (is_blank-decimal a, all_digits-decimal a) (all_numeric-decimal oid)

numeric-text : (a : ℕ) (oid : Oid) → is_numeric_oid_text (oid_to_string (a ∷ oid)) ≡ true
unfolding is_numeric_oid_text oid_to_string
numeric-text a oid =
    let t = join b'.' (map decimal (a ∷ oid)) in
    let (c, rest, e, d) = oid_to_string-cons a oid in
    let dots : strip_dots (strip t) ≡ t =
      ap strip_dots (strip-plain t (all_plain-join (a ∷ oid)) ∙ e)
      ∙ strip_dots-digit c rest d
      ∙ sym e in
    let blank : is_blank t ≡ false = ap is_blank e in
    ap (λ x. not (is_blank x) && all_numeric (split b'.' x)) dots
    ∙ ap (λ b. not b && all_numeric (split b'.' t)) blank
    ∙ ap all_numeric (split-join a oid)
    ∙ all_numeric-decimal (a ∷ oid)

parse_suffixed-text :
    (module_name symbol : Text) (a : ℕ) (oid : Oid)
    → is_blank symbol ≡ false
    → parse_suffixed module_name symbol (oid_to_string (a ∷ oid))
      ≡ ok (module_name, (symbol, a ∷ oid))
unfolding parse_suffixed parse_oid
parse_suffixed-text module_name symbol a oid h =
    let (c, rest, e, d) = oid_to_string-cons a oid in
    let blank : is_blank (oid_to_string (a ∷ oid)) ≡ false = ap is_blank e in
    rw (h, blank, numeric-text a oid, parse_oid-oid_to_string a oid) refl

parse_remainder-suffix :
    (module_name symbol : Text) (suffix : Oid)
    → has_no_dot symbol ≡ true
    → is_blank symbol ≡ false
    → parse_remainder module_name
        (with_suffix symbol suffix)
        (split_dot (with_suffix symbol suffix))
      ≡ ok (module_name, (symbol, suffix))
unfolding parse_remainder with_suffix
parse_remainder-suffix module_name symbol [] h k = rw (split_dot-none symbol h) refl
parse_remainder-suffix module_name symbol (a ∷ oid) h k =
    rw (split_dot-some symbol (oid_to_string (a ∷ oid)) h)
      (parse_suffixed-text module_name symbol a oid k)

with_suffix-name :
    (module_name symbol : Text) (suffix : Oid)
    → with_suffix (symbolic_name module_name symbol) suffix
      ≡ symbolic_name module_name (with_suffix symbol suffix)
unfolding with_suffix
with_suffix-name module_name symbol [] = refl
with_suffix-name module_name symbol (a ∷ oid) =
    append_assoc module_name (b':' ∷ b':' ∷ symbol) (b'.' ∷ oid_to_string (a ∷ oid))

is_blank-with_suffix :
    (symbol : Text) (suffix : Oid)
    → is_blank symbol ≡ false
    → is_blank (with_suffix symbol suffix) ≡ false
unfolding with_suffix
is_blank-with_suffix symbol [] h = h
is_blank-with_suffix [] (a ∷ oid) h = cc
is_blank-with_suffix (c ∷ symbol) (a ∷ oid) h = refl

parse_symbolic_target-name :
    (module_name symbol : Text) (suffix : Oid)
    → has_no_colon module_name ≡ true
    → is_blank module_name ≡ false
    → has_no_dot symbol ≡ true
    → is_blank symbol ≡ false
    → parse_symbolic_target (symbolic_name module_name (with_suffix symbol suffix))
      ≡ ok (module_name, (symbol, suffix))
unfolding parse_symbolic_target
parse_symbolic_target-name module_name symbol suffix colon blank dot blank' =
    rw
      (
        partition_colons-name module_name (with_suffix symbol suffix) colon,
        blank,
        is_blank-with_suffix symbol suffix blank',
      )
      (parse_remainder-suffix module_name symbol suffix dot blank')

-- The symbolic text of a match that `lookup_oid` has found for an identifier resolves to that
-- identifier, in a registry that finds each node under its own identifier and the match's node under
-- its module and symbol, if the module's name has no colon, the symbol no dot, and none is empty.
pub resolve_symbolic-symbolic :
    (s : MibRegistry) (oid : Oid) (m : OidMatch) (node : MibNode)
    → IsConsistent s
    → lookup_arcs s oid ≡ ok m
    → resolve_node s m.module_name m.symbol ≡ some node
    → node.oid ≡ m.matched_oid
    → has_no_colon m.module_name ≡ true
    → is_blank m.module_name ≡ false
    → has_no_dot m.symbol ≡ true
    → is_blank m.symbol ≡ false
    → resolve_symbolic s (symbolic m) ≡ ok oid
unfolding resolve_symbolic symbolic
resolve_symbolic-symbolic s oid m node consistent found h same colon blank dot blank' =
    let (_, whole, _, _) = lookup_arcs-prefix s oid m consistent found in
    let parsed =
      ap parse_symbolic_target (with_suffix-name m.module_name m.symbol m.suffix)
      ∙ parse_symbolic_target-name m.module_name m.symbol m.suffix colon blank dot blank' in
    rw (parsed, h, same) (ap ok whole)
