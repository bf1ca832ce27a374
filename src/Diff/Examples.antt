-- ===== src/Diff/Examples.antt =====
-- Two firewall rules before and after a change, on which the results about diffs are applied.
use pfsense_backups.Prelude.{ℕ, ◌≡◌, refl, true, some, List, [], ◌∷◌, length, All, ◌==◌}
use pfsense_backups.Replication.{codes}
use pfsense_backups.Diff.Data.{null, number, text, dict, Fields, end, field, get, value_eq}
use pfsense_backups.Diff.{SectionDiff, is_empty, field_changes}
use pfsense_backups.Diff.Rows.{diff_list}
use pfsense_backups.Diff.Labels.{Python, str, label_firewall}
use pfsense_backups.Diff.Configs.{ParsedConfig, diff_configs}
use pfsense_backups.Diff.Same.{IsDict}
use pfsense_backups.Diff.SameRows.{diff_list_same}
use pfsense_backups.Diff.SameConfigs.{IsConfig, diff_configs_same}
use pfsense_backups.Diff.Complete.{field_changes_complete}

abbrev py : Python
py = record { repr = λ v. codes "None"; is_space = λ c. c == 32 }

abbrev rule : ℕ → ℕ → Fields
rule k port = field (codes "key") (text (k ∷ [])) (
    field (codes "port") (number port)
      (field (codes "source") (dict (field (codes "any") null end)) end))

abbrev before : List Fields
before = rule 97 80 ∷ rule 98 443 ∷ rule 99 22 ∷ []

abbrev after : List Fields
after = rule 99 22 ∷ rule 97 8080 ∷ []

abbrev report : SectionDiff
report = diff_list (str py) before after (codes "key") (label_firewall py) true

one_removed : length report.removed ≡ 1
unfolding diff_list
one_removed = refl

label_of_rule :
    label_firewall py (field (codes "descr") (text (codes "allow web")) end)
    ≡ codes "[?] ?: allow web"
unfolding label_firewall
label_of_rule = refl

rule-IsDict : (k port : ℕ) → IsDict (rule k port)
rule-IsDict k port = (refl, (tt, (refl, (tt, (refl, ((refl, (tt, tt)), tt))))))

diff_list_same_example :
    is_empty (diff_list (str py) before before (codes "key") (label_firewall py) true) ≡ true
diff_list_same_example =
    diff_list_same (str py) before (codes "key") (label_firewall py) true
      (rule-IsDict 97 80, (rule-IsDict 98 443, (rule-IsDict 99 22, tt)))

abbrev config : ParsedConfig
config = record {
  models = λ name. some (rule 97 80);
  lists = λ name. before;
  scalars = λ name. text (codes "22.9");
}

config-IsConfig : IsConfig config
config-IsConfig = record {
  models = λ name. rule-IsDict 97 80;
  lists = λ name. (rule-IsDict 97 80, (rule-IsDict 98 443, (rule-IsDict 99 22, tt)));
  scalars = λ name. tt;
}

diff_configs_same_example : All (λ d. is_empty d ≡ true) (diff_configs py config config)
diff_configs_same_example = diff_configs_same py config config-IsConfig

same_rule :
    field_changes [] (rule 97 80) (
      field (codes "port") (number 80) (
        field
          (codes "source")
          (dict (field (codes "any") null end))
          (field (codes "key") (text (97 ∷ [])) end)))
    ≡ []
unfolding field_changes
same_rule = refl

field_changes_complete_example :
    value_eq (get (codes "port") (rule 97 80)) (
      get (codes "port") (
        field (codes "port") (number 80) (
          field
            (codes "source")
            (dict (field (codes "any") null end))
            (field (codes "key") (text (97 ∷ [])) end))))
    ≡ true
field_changes_complete_example =
    field_changes_complete (rule 97 80)
      (field (codes "port") (number 80) (
        field (codes "source") (dict (field (codes "any") null end))
          (field (codes "key") (text (97 ∷ [])) end)))
      (codes "port") same_rule refl
