-- ===== src/Anchors/Spec.antt =====
-- The tables of pfsense_shared/anchor_events.py, and the names of anchors.
use pfsense_backups.Prelude.{
  ℕ, Bool, true, false, not, ◌&&◌, ◌||◌, Option, none, some, List, [], ◌∷◌, ◌++◌, map, leb, ◌==◌,
  String, if◌then◌else◌,
}
use pfsense_backups.Store.{Text}
use pfsense_backups.Replication.{codes}
use pfsense_backups.Prelude.{text_eq}
use pfsense_backups.Diff.Rows.{Keyed, put_key, lookup}
use pfsense_backups.Crypto.Wrapper.{all_chars}

-- `[A-Za-z0-9_]`
unfoldable pub is_word : ℕ → Bool
is_word c =
    (leb 65 c && leb c 90) || ((leb 97 c && leb c 122) || ((leb 48 c && leb c 57) || c == 95))

unfoldable pub safe_char : ℕ → ℕ
unfolding is_word
safe_char c = if is_word c || c == 45 then c else 95

-- `_safe`
unfoldable pub safe : Text → Text
unfolding safe_char
safe key = map safe_char key

-- An entry of SECTION_SPEC.
pub record RowSpec : Type 0 where
  pub section : String
  pub anchor_kind : String
  pub anchor_key_field : String
  pub diff_key_field : String

abbrev pub row_spec : String → String → String → String → RowSpec
row_spec s k a d = record { section = s; anchor_kind = k; anchor_key_field = a; diff_key_field = d }

unfoldable pub section_spec : List RowSpec
section_spec =
    row_spec "firewall_rules" "rule" "key" "key"
    ∷ row_spec "nat_rules" "nat" "key" "key"
    ∷ row_spec "aliases" "alias" "name" "name"
    ∷ row_spec "interfaces" "interface" "key" "key"
    ∷ row_spec "vlans" "vlan" "vlanif" "key"
    ∷ row_spec "gateways" "gateway" "name" "name"
    ∷ row_spec "gateway_groups" "gateway_group" "name" "name"
    ∷ row_spec "schedules" "schedule" "name" "name"
    ∷ row_spec "certificate_authorities" "ca" "refid" "refid"
    ∷ row_spec "certificates" "cert" "refid" "refid"
    ∷ row_spec "crls" "crl" "refid" "refid"
    ∷ row_spec "authservers" "authserver" "name" "name"
    ∷ row_spec "openvpn_servers" "openvpn_server" "vpnid" "vpnid"
    ∷ row_spec "openvpn_clients" "openvpn_client" "vpnid" "vpnid"
    ∷ row_spec "openvpn_cscs" "openvpn_csc" "common_name" "common_name"
    ∷ row_spec "ipsec_phase1" "ipsec_phase1" "ikeid" "ikeid"
    ∷ row_spec "ipsec_phase2" "ipsec_phase2" "uniqid" "uniqid"
    ∷ row_spec "lb_pools" "lb_pool" "name" "name"
    ∷ row_spec "users" "user" "name" "name"
    ∷ row_spec "groups" "group" "name" "name"
    ∷ row_spec "interface_groups" "interface_group" "ifname" "ifname"
    ∷ []

-- ANCHOR_KIND_TO_SECTION
unfoldable pub kind_sections : List RowSpec → Keyed Text → Keyed Text
unfolding put_key
kind_sections [] acc = acc
kind_sections (s ∷ ss) acc = kind_sections ss (put_key (codes s.anchor_kind) (codes s.section) acc)

unfoldable pub anchor_kind_to_section : Keyed Text
unfolding kind_sections section_spec
anchor_kind_to_section = kind_sections section_spec []

-- SINGLETON_SPEC: a section and its scope.
unfoldable pub singleton_spec : List (String × String)
singleton_spec =
    ("system", "system")
    ∷ ("dns", "dns")
    ∷ ("hasync", "hasync")
    ∷ ("ntpd", "ntpd")
    ∷ ("snmpd", "snmpd")
    ∷ ("syslog", "syslog")
    ∷ ("notifications", "notifications")
    ∷ ("ups", "ups")
    ∷ ("ftpproxy", "ftpproxy")
    ∷ ("diag", "diag")
    ∷ ("theme", "theme")
    ∷ []

-- SINGLETON_SCOPE_TO_SECTION
unfoldable pub scope_sections : List (String × String) → Keyed Text → Keyed Text
unfolding put_key
scope_sections [] acc = acc
scope_sections (s ∷ ss) acc = scope_sections ss (put_key (codes s.1) (codes s.0) acc)

unfoldable pub singleton_scope_to_section : Keyed Text
unfolding scope_sections singleton_spec
singleton_scope_to_section = scope_sections singleton_spec []

abbrev pub Rescope : Type 0
Rescope = Keyed (Text × Text)

-- _SINGLETON_FIELD_RESCOPE
unfoldable pub singleton_field_rescope : Keyed Rescope
singleton_field_rescope =
    (
      codes "dns",
      (codes "dnsmasq_enabled", (codes "dns", codes "enable"))
          ∷ (codes "dnsmasq_port", (codes "dns", codes "port"))
          ∷ (codes "unbound_enabled", (codes "unbound", codes "enable"))
          ∷ (codes "unbound_port", (codes "unbound", codes "port"))
          ∷ [],
    )
    ∷ []

abbrev pub rescope_or_empty : Option Rescope → Rescope
rescope_or_empty none = []
rescope_or_empty (some m) = m

-- `_SINGLETON_FIELD_RESCOPE.get(section_name, {})`
unfoldable pub rescope_map : Text → Rescope
unfolding lookup singleton_field_rescope
rescope_map name = rescope_or_empty (lookup name singleton_field_rescope)

unfoldable pub package_singleton_spec : List (String × String)
package_singleton_spec =
    ("avahi", "avahi")
    ∷ ("miniupnpd", "miniupnpd")
    ∷ ("openvpn_client_export", "openvpn_client_export")
    ∷ ("telegraf", "telegraf")
    ∷ []

-- An entry of PACKAGE_ROW_SPEC.
pub record PackageRow : Type 0 where
  pub list_path : String
  pub anchor_kind : String
  pub anchor_key_field : String

unfoldable pub package_row_spec : List PackageRow
package_row_spec =
    (record {
      list_path = "haproxy.backends";
      anchor_kind = "haproxy_backend";
      anchor_key_field = "name";
    })
    ∷ []

abbrev pub xref : Text → Text → Text
xref kind key = codes "xref-" ++ (kind ++ (codes "-" ++ key))

abbrev pub field_id : Text → Text → Text
field_id scope tag = codes "field-" ++ (scope ++ (codes "-" ++ tag))

-- What is before the first dash, and what is after it.
unfoldable pub cut_dash : Text → Text × Option Text
cut_dash [] = ([], none)
cut_dash (c ∷ cs) = let (k, v) = cut_dash cs in if c == 45 then ([], some cs) else (c ∷ k, v)

-- `$` also matches before a newline at the end.
unfoldable pub chomp : Text → Text
chomp [] = []
chomp (c ∷ cs) = elim cs [ [] ↦ if c == 10 then [] else c ∷ [] | d ∷ ds ↦ c ∷ chomp cs ]

abbrev pub is_filled : Text → Bool
is_filled [] = false
is_filled (c ∷ cs) = true

abbrev pub not_newline : ℕ → Bool
not_newline c = not (c == 10)

abbrev pub tail_matches : Option Text → Bool
tail_matches none = true
tail_matches (some t) = is_filled t && all_chars not_newline t

-- `m.group(2)`, of what follows the first dash.
unfoldable pub scope_of : Option Text → Option Text
unfolding cut_dash is_word
scope_of none = none
scope_of (some rest) =
    let (scope, tail) = cut_dash rest in
    if (is_filled scope && all_chars is_word scope) && tail_matches tail then some scope else none

abbrev pub section_or : Text → Option Text → Option Text
section_or scope none = some scope
section_or scope (some s) = some s

unfoldable pub section_of : Text → Option Text → Option Text
unfolding lookup anchor_kind_to_section singleton_scope_to_section
section_of namespace none = none
section_of namespace (some scope) =
    if text_eq namespace (codes "xref")
    then lookup scope anchor_kind_to_section
    else if text_eq namespace (codes "field")
    then lookup scope singleton_scope_to_section
    else if text_eq namespace (codes "section")
    then section_or scope (lookup scope singleton_scope_to_section)
    else none

-- The match, of an identifier without a newline at its end.
unfoldable pub decode_anchor : Text → Option Text
unfolding cut_dash scope_of section_of
decode_anchor anchor_id =
    let (namespace, rest) = cut_dash anchor_id in section_of namespace (scope_of rest)

unfoldable pub section_for_anchor : Text → Option Text
unfolding chomp decode_anchor
section_for_anchor anchor_id = decode_anchor (chomp anchor_id)
