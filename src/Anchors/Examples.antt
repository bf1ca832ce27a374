-- ===== src/Anchors/Examples.antt =====
-- A diff of two firewalls, its events for pfsense_shared/anchor_events.py, and the anchors.
use pfsense_backups.Prelude.{ℕ, ◌≡◌, refl, inl, none, some, [], ◌∷◌, All, ◌==◌, In}
use pfsense_backups.Store.{Text}
use pfsense_backups.Replication.{codes}
use pfsense_backups.Diff.Data.{
  Value, null, number, text, items, nil, cons, dict, Fields, end, field,
}
use pfsense_backups.Diff.{SectionDiff, no_diff}
use pfsense_backups.Diff.Labels.{Python, str}
use pfsense_backups.Diff.Configs.{ParsedConfig}
use pfsense_backups.Diff.Same.{IsDict}
use pfsense_backups.Diff.SameConfigs.{IsConfig}
use pfsense_backups.Summary.{ConfigDiff}
use pfsense_backups.Anchors.Resolve.{resolve_anchor_value}
use pfsense_backups.Anchors.Found.{resolve_anchor_value-row}
use pfsense_backups.Anchors.{
  row_anchor_id, added, removed, modified, reordered, event, row_events, all_row_events,
}
use pfsense_backups.Anchors.Spec.{RowSpec, section_spec, row_spec, section_for_anchor}
use pfsense_backups.Anchors.Packages.{package_events}
use pfsense_backups.Anchors.Project.{all_singleton_events, diff_to_anchor_events}
use pfsense_backups.Anchors.Decode.{IsDecoded, row_events-IsDecoded}
use pfsense_backups.Anchors.Current.{IsCurrent, all_row_events-IsCurrent}
use pfsense_backups.Anchors.Quiet.{named_diff, diff_to_anchor_events_same}

abbrev py : Python
py = record { repr = λ v. codes "None"; is_space = λ c. c == 32 }

abbrev rule : Text → ℕ → Fields
rule key port = field (codes "key") (text key) (field (codes "port") (number port) end)

abbrev parsed : ParsedConfig
parsed = record {
  models = λ name. none;
  lists = λ name. rule (codes "web in") 443 ∷ rule (codes "ssh") 22 ∷ [];
  scalars = λ name. null;
}

abbrev rules_diff : SectionDiff
rules_diff = record no_diff {
  added = rule (codes "ssh") 22 ∷ [];
  removed = rule (codes "old") 23 ∷ [];
  modified =
      (record {
        key = codes "web in";
        label = codes "web";
        changes = (record { path = codes "port"; old = number 80; new = number 443 }) ∷ [];
      })
      ∷ [];
  reordered =
      (record { key = codes "web in"; label = codes "web"; old_index = 1; new_index = 0 }) ∷ [];
}

abbrev changed : ConfigDiff
changed = (codes "firewall_rules", rules_diff) ∷ []

abbrev firewall : RowSpec
firewall = row_spec "firewall_rules" "rule" "key" "key"

-- A rule that was edited and moved has two events.
rule_events :
    all_row_events (str py) changed parsed
    ≡ event (codes "xref-rule-ssh") added (dict (rule (codes "ssh") 22))
      ∷ event (codes "xref-rule-old") removed (dict (rule (codes "old") 23))
      ∷ event (codes "xref-rule-web_in") modified (dict (rule (codes "web in") 443))
      ∷ event (codes "xref-rule-web_in") reordered (dict (rule (codes "web in") 443))
      ∷ []
unfolding all_row_events
rule_events = refl

all_row_events-IsCurrent_example :
    All (IsCurrent (str py) parsed) (all_row_events (str py) changed parsed)
all_row_events-IsCurrent_example = all_row_events-IsCurrent (str py) parsed changed

row_events-IsDecoded_example :
    All
      (IsDecoded firewall)
      (row_events (str py) firewall (some rules_diff) (rule (codes "ssh") 22 ∷ []))
unfolding section_spec
row_events-IsDecoded_example =
    row_events-IsDecoded (str py) firewall (inl refl) (some rules_diff) (rule (codes "ssh") 22 ∷ [])

rule-IsDict : (key : Text) (port : ℕ) → IsDict (rule key port)
rule-IsDict key port = (refl, (tt, (refl, (tt, tt))))

parsed-IsConfig : IsConfig parsed
parsed-IsConfig = record {
  models = λ name. tt;
  lists = λ name. (rule-IsDict (codes "web in") 443, (rule-IsDict (codes "ssh") 22, tt));
  scalars = λ name. tt;
}

diff_to_anchor_events_same_example :
    diff_to_anchor_events (str py) (named_diff py parsed parsed) parsed ≡ []
diff_to_anchor_events_same_example = diff_to_anchor_events_same py parsed parsed-IsConfig

abbrev field_diff : Text → Value → Value → SectionDiff
field_diff path old new = record no_diff {
  modified =
      (record {
        key = [];
        label = [];
        changes = (record { path = path; old = old; new = new }) ∷ [];
      })
      ∷ [];
}

-- The switch of unbound belongs to the section `dns`, and its anchor is read as no section's.
unbound_event :
    (all_singleton_events
        ((codes "dns", field_diff (codes "unbound_enabled") null (text (codes "yes"))) ∷ [])
      ≡ event (codes "field-unbound-enable") added (text (codes "yes")) ∷ [])
    × (section_for_anchor (codes "field-unbound-enable") ≡ none)
unfolding all_singleton_events section_for_anchor
unbound_event = (refl, refl)

-- A list is compared as a whole, so the path of a changed backend has two parts, and no event.
backend_change :
    package_events
      (str py)
      (some (
        field_diff
          (codes "haproxy.backends")
          (items nil)
          (items (cons (dict (rule (codes "api") 80)) nil))))
      none
    ≡ []
unfolding package_events
backend_change = refl

resolve_anchor_value-row_example :
    (found : Fields) × (In found (parsed.lists "firewall_rules")
      × ((row_anchor_id (str py) firewall found ≡ some (codes "xref-rule-web_in"))
          × (resolve_anchor_value (str py) parsed (codes "xref-rule-web_in") ≡ dict found)))
unfolding section_spec row_anchor_id
resolve_anchor_value-row_example =
    resolve_anchor_value-row (str py) parsed firewall (rule (codes "web in") 443)
      (codes "xref-rule-web_in") (inl refl) (inl refl) refl (λ e. cc)

-- A field of dns, under the tag that it has in the XML.
resolved_field :
    resolve_anchor_value
      (str py)
      (record parsed { models = λ name. some (field (codes "unbound_port") (number 53) end) })
      (codes "field-unbound-port")
    ≡ text (codes "None")
unfolding resolve_anchor_value
resolved_field = refl
