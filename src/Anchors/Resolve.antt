-- ===== src/Anchors/Resolve.antt =====
-- pfsense_shared/pfsense_anchor_values.py: what an anchor points at in a configuration.
use pfsense_backups.Prelude.{
  Bool, true, false, ◌&&◌, ◌||◌, Option, none, some, List, [], ◌∷◌, ◌++◌, String, if◌then◌else◌,
  text_eq,
}
use pfsense_backups.Store.{Text}
use pfsense_backups.Replication.{codes}
use pfsense_backups.Diff.Data.{
  Value, null, flag, text, items, dict, Values, nil, cons, Fields, end, field, get,
}
use pfsense_backups.Diff.Rows.{Keyed, lookup}
use pfsense_backups.Diff.Configs.{ParsedConfig}
use pfsense_backups.Crypto.Wrapper.{all_chars}
use pfsense_backups.Anchors.Spec.{is_word, safe, cut_dash, chomp, is_filled, tail_matches}
use pfsense_backups.Anchors.Packages.{descend, rows_of, installed}

-- A path of attributes from a ParsedConfig: the first one, and those below it.
pub record Place : Type 0 where
  pub root : String
  pub below : List Text

abbrev pub at : String → Place
at name = record { root = name; below = [] }

abbrev pub under : String → Place
under pkg = record { root = "installedpackages"; below = codes pkg ∷ [] }

pub record RowScope : Type 0 where
  pub place : Place
  pub key_attr : String

abbrev pub scope : String → String → String → Text × RowScope
scope kind name key = (codes kind, record { place = at name; key_attr = key })

unfoldable pub row_scopes : Keyed RowScope
row_scopes =
    scope "rule" "firewall_rules" "key"
    ∷ scope "nat" "nat_rules" "key"
    ∷ scope "alias" "aliases" "name"
    ∷ scope "interface" "interfaces" "key"
    ∷ scope "vlan" "vlans" "vlanif"
    ∷ scope "gateway" "gateways" "name"
    ∷ scope "gateway_group" "gateway_groups" "name"
    ∷ scope "schedule" "schedules" "name"
    ∷ scope "ca" "certificate_authorities" "refid"
    ∷ scope "cert" "certificates" "refid"
    ∷ scope "crl" "crls" "refid"
    ∷ scope "authserver" "authservers" "name"
    ∷ scope "openvpn_server" "openvpn_servers" "vpnid"
    ∷ scope "openvpn_client" "openvpn_clients" "vpnid"
    ∷ scope "openvpn_csc" "openvpn_cscs" "common_name"
    ∷ scope "ipsec_phase1" "ipsec_phase1" "ikeid"
    ∷ scope "ipsec_phase2" "ipsec_phase2" "uniqid"
    ∷ scope "lb_pool" "lb_pools" "name"
    ∷ scope "user" "users" "name"
    ∷ scope "group" "groups" "name"
    ∷ scope "interface_group" "interface_groups" "ifname"
    ∷ (
      codes "haproxy_backend",
      record {
        place = record {
          root = "installedpackages";
          below = codes "haproxy" ∷ codes "backends" ∷ [];
        };
        key_attr = "name";
      },
    )
    ∷ []

-- A scope, a tag and the field that it stands for.
unfoldable pub field_aliases : List (Text × (Text × Text))
field_aliases =
    (codes "dns", (codes "enable", codes "dnsmasq_enabled"))
    ∷ (codes "dns", (codes "port", codes "dnsmasq_port"))
    ∷ (codes "unbound", (codes "enable", codes "unbound_enabled"))
    ∷ (codes "unbound", (codes "port", codes "unbound_port"))
    ∷ []

unfoldable pub singleton_path : Keyed Place
singleton_path =
    (codes "system", at "system")
    ∷ (codes "dns", at "dns")
    ∷ (codes "unbound", at "dns")
    ∷ (codes "hasync", at "hasync")
    ∷ (codes "ntpd", at "ntpd")
    ∷ (codes "snmpd", at "snmpd")
    ∷ (codes "syslog", at "syslog")
    ∷ (codes "notifications", at "notifications")
    ∷ (codes "ups", at "ups")
    ∷ (codes "ftpproxy", at "ftpproxy")
    ∷ (codes "diag", at "diag")
    ∷ (codes "theme", at "theme")
    ∷ (codes "avahi", under "avahi")
    ∷ (codes "miniupnpd", under "miniupnpd")
    ∷ (codes "openvpn_client_export", under "openvpn_client_export")
    ∷ (codes "telegraf", under "telegraf")
    ∷ []

-- `_FIELD_ALIASES.get((scope, tail), tail)`
unfoldable pub alias_of : List (Text × (Text × Text)) → Text → Text → Text
alias_of [] scope tail = tail
alias_of (a ∷ rest) scope tail =
    let later = alias_of rest scope tail in
    if text_eq a.0 scope && text_eq a.1.0 tail then a.1.1 else later

-- The three groups of the match.
pub record Parts : Type 0 where
  pub namespace : Text
  pub scope : Text
  pub tail : Option Text

abbrev pub is_namespace : Text → Bool
is_namespace n =
    text_eq n (codes "xref") || (text_eq n (codes "field") || text_eq n (codes "section"))

unfoldable pub parts_after : Text → Option Text → Option Parts
unfolding cut_dash is_word
parts_after n none = none
parts_after n (some rest) =
    let (scope, tail) = cut_dash rest in
    if is_namespace n && ((is_filled scope && all_chars is_word scope) && tail_matches tail)
    then some (record { namespace = n; scope = scope; tail = tail })
    else none

unfoldable pub match_line : Text → Option Parts
unfolding cut_dash parts_after
match_line line = let (n, rest) = cut_dash line in parts_after n rest

-- `_ANCHOR_RE.match`
unfoldable pub match_anchor : Text → Option Parts
unfolding chomp match_line
match_anchor anchor_id = match_line (chomp anchor_id)

module _ (str_of : Value → Text) (cfg : ParsedConfig) where
  -- `_stringify`, of a value that is not None; None in a list is an empty text.
  abbrev mutual
    pub words : Value → Text
    words null = []
    words (flag true) = codes "yes"
    words (flag false) = codes "no"
    words (items vs) = joined_words vs
    words v = str_of v

    pub joined_words : Values → Text
    joined_words nil = []
    joined_words (cons v nil) = words v
    joined_words (cons v (cons u us)) = words v ++ (codes ", " ++ joined_words (cons u us))

  abbrev pub stringify : Value → Value
  stringify null = null
  stringify v = text (words v)

  -- `_descend`, to a section, and to a list of rows.
  unfoldable pub section_at : Place → Value
  unfolding descend
  section_at p = descend (installed (cfg.models p.root)) p.below

  abbrev pub list_at : String → List Text → Value → List Fields
  list_at root [] v = cfg.lists root
  list_at root (t ∷ ts) v = rows_of v

  unfoldable pub rows_at : Place → List Fields
  unfolding section_at
  rows_at p = list_at p.root p.below (section_at p)

  -- `_row_to_dict`
  abbrev pub row_to_dict : Value → Value
  row_to_dict null = null
  row_to_dict (dict d) = dict d
  row_to_dict v = dict (field (codes "value") v end)

  abbrev pub section_place : Option Place → Value
  section_place none = null
  section_place (some p) = row_to_dict (section_at p)

  abbrev pub attribute : Text → Value → Value
  attribute name (dict d) = get name d
  attribute name _ = null

  abbrev pub field_place : Text → Text → Option Place → Value
  field_place scope tag none = null
  field_place scope tag (some p) =
      stringify (attribute (alias_of field_aliases scope tag) (section_at p))

  abbrev pub is_wanted : Text → Value → Bool
  is_wanted wanted null = false
  is_wanted wanted v = text_eq (safe (str_of v)) wanted

  -- The first row with that key.
  unfoldable pub find_anchored : Text → Text → List Fields → Value
  find_anchored key wanted [] = null
  find_anchored key wanted (row ∷ rows) =
      let later = find_anchored key wanted rows in
      if is_wanted wanted (get key row) then dict row else later

  abbrev pub row_place : Text → Option RowScope → Value
  row_place tail none = null
  row_place tail (some s) = find_anchored (codes s.key_attr) (safe tail) (rows_at s.place)

  abbrev pub resolve_tail : Text → Text → Option Text → Value
  resolve_tail n scope none = null
  resolve_tail n scope (some tail) =
      if text_eq n (codes "field")
      then field_place scope tail (lookup scope singleton_path)
      else row_place tail (lookup scope row_scopes)

  unfoldable pub resolve_parts : Option Parts → Value
  unfolding lookup singleton_path row_scopes section_at rows_at find_anchored alias_of field_aliases
      safe
  resolve_parts none = null
  resolve_parts (some p) =
      if text_eq p.namespace (codes "section")
      then section_place (lookup p.scope singleton_path)
      else resolve_tail p.namespace p.scope p.tail

  unfoldable pub resolve_anchor_value : Text → Value
  unfolding match_anchor resolve_parts
  resolve_anchor_value anchor_id = resolve_parts (match_anchor anchor_id)
