-- ===== src/Diff/Labels.antt =====
-- The label helpers of pfsense_shared/pfsense_diff.py.
use pfsense_backups.Prelude.{
  ℕ, Bool, true, false, not, List, [], ◌∷◌, ◌++◌, ◌==◌, String, if◌then◌else◌,
}
use mathlib.Core.List.{reverse}
use pfsense_backups.Store.{Text}
use pfsense_backups.Replication.{codes}
use pfsense_backups.Diff.Data.{
  Value, null, flag, number, text, items, dict, Values, nil, cons, Fields, end, get,
}

-- What Python's `str` gives for a value that is no text, and its white space.
pub record Python : Type 0 where
  pub repr : Value → Text
  pub is_space : ℕ → Bool

-- The truth of a value.
abbrev pub truthy : Value → Bool
truthy null = false
truthy (flag b) = b
truthy (number n) = not (n == 0)
truthy (text []) = false
truthy (text (c ∷ cs)) = true
truthy (items nil) = false
truthy (items (cons x xs)) = true
truthy (dict end) = false
truthy (dict _) = true

abbrev pub concat : List Text → Text
concat [] = []
concat (t ∷ ts) = t ++ concat ts

abbrev pub or_text : Text → Text → Text
or_text [] t = t
or_text (c ∷ cs) t = c ∷ cs

module _ (py : Python) where
  abbrev pub str : Value → Text
  str (text t) = t
  str v = py.repr v

  -- `m.get(name) or default`, as a text.
  abbrev pub pick : Fields → String → String → Text
  pick m name default = let v = get (codes name) m in if truthy v then str v else codes default

  -- `m.get(name) or m.get(second) or default`
  abbrev pub pick_two : Fields → String → String → String → Text
  pick_two m name second default =
      let v = get (codes name) m in if truthy v then str v else pick m second default

  abbrev pub skip_spaces : Text → Text
  skip_spaces [] = []
  skip_spaces (c ∷ cs) = let rest = skip_spaces cs in if py.is_space c then rest else c ∷ cs

  -- `text.strip()`
  abbrev pub strip : Text → Text
  strip t = reverse (skip_spaces (reverse (skip_spaces t)))

  -- `sep.join(members)`
  abbrev pub join_values : Text → Values → Text
  join_values sep nil = []
  join_values sep (cons x nil) = str x
  join_values sep (cons x (cons y ys)) = str x ++ (sep ++ join_values sep (cons y ys))

  -- `sep.join(m.get(name) or [])`
  abbrev pub join_field : Fields → String → String → Text
  join_field m name sep = elim (get (codes name) m) [
    | items xs ↦ join_values (codes sep) xs
    | _ ↦ []
  ]

  -- `f"{before}{t}{after}" if t else ""`
  abbrev pub when_set : String → Text → String → Text
  when_set before [] after = []
  when_set before (c ∷ cs) after = codes before ++ ((c ∷ cs) ++ codes after)

  unfoldable pub label_named : Fields → Text
  label_named m = pick_two m "name" "key" "?"

  unfoldable pub label_sysctl : Fields → Text
  label_sysctl m = pick m "tunable" "?"

  unfoldable pub label_cron : Fields → Text
  label_cron m =
      let gap = codes " " in
      strip (
        concat (
          pick m "minute" "*"
          ∷ gap
          ∷ pick m "hour" "*"
          ∷ gap
          ∷ pick m "mday" "*"
          ∷ gap
          ∷ pick m "month" "*"
          ∷ gap
          ∷ pick m "wday" "*"
          ∷ codes "  "
          ∷ pick m "command" ""
          ∷ []))

  unfoldable pub label_interface : Fields → Text
  label_interface m = concat (pick m "key" "" ∷ when_set " (" (pick m "descr" "") ")" ∷ [])

  unfoldable pub label_firewall : Fields → Text
  label_firewall m = strip (
      concat (
        codes "["
        ∷ pick m "interface" "?"
        ∷ codes "] "
        ∷ pick m "type" "?"
        ∷ codes ": "
        ∷ pick m "descr" ""
        ∷ []))

  unfoldable pub label_nat : Fields → Text
  label_nat m = strip (
      concat (
        codes "["
        ∷ pick m "kind" "?"
        ∷ codes " / "
        ∷ pick m "interface" "?"
        ∷ codes "] "
        ∷ pick m "descr" ""
        ∷ []))

  unfoldable pub label_route : Fields → Text
  label_route m = concat (pick m "network" "?" ∷ codes " via " ∷ pick m "gateway" "?" ∷ [])

  unfoldable pub label_dhcp : Fields → Text
  label_dhcp m = codes "DHCP: " ++ pick m "interface" "?"

  unfoldable pub label_bridge : Fields → Text
  label_bridge m = concat (
      pick m "bridgeif" "?"
      ∷ codes " ("
      ∷ (if truthy (get (codes "members") m)
          then join_field m "members" ", "
          else codes "no members")
      ∷ codes ")"
      ∷ [])

  unfoldable pub label_tunnel : Fields → Text
  label_tunnel m = concat (
      codes "["
      ∷ pick m "kind" "?"
      ∷ codes "] "
      ∷ pick m "name" "?"
      ∷ codes " → "
      ∷ pick m "remote_addr" "?"
      ∷ [])

  unfoldable pub label_ppp : Fields → Text
  label_ppp m =
      concat (codes "[" ∷ pick m "type" "?" ∷ codes "] " ∷ pick_two m "if_" "ptpid" "?" ∷ [])

  unfoldable pub label_lagg : Fields → Text
  label_lagg m = concat (
      pick m "laggif" "?"
      ∷ codes " ("
      ∷ pick m "proto" "?"
      ∷ codes ") — "
      ∷ (if truthy (get (codes "members") m)
          then join_field m "members" ","
          else codes "no members")
      ∷ [])

  unfoldable pub label_dyndns : Fields → Text
  label_dyndns m =
      concat (codes "[" ∷ pick m "type" "?" ∷ codes "] " ∷ pick_two m "host" "domainname" "?" ∷ [])

  unfoldable pub label_igmp : Fields → Text
  label_igmp m = concat (pick m "type" "?" ∷ codes " on " ∷ pick m "ifname" "?" ∷ [])

  unfoldable pub label_radvd : Fields → Text
  label_radvd m = codes "radvd on " ++ pick m "interface" "?"

  unfoldable pub label_voucher : Fields → Text
  label_voucher m = concat (
      codes "roll #" ∷ pick m "number" "?" ∷ codes " (" ∷ pick m "minutes" "?" ∷ codes " min)" ∷ [])

  -- The parts that are set, joined by a dash.
  abbrev pub dashed : Text → Text → Text
  dashed [] b = b
  dashed (c ∷ cs) b = (c ∷ cs) ++ when_set " — " b ""

  unfoldable pub label_wol : Fields → Text
  label_wol m =
      pick m "mac" "?" ++ when_set " — " (dashed (pick m "interface" "") (pick m "descr" "")) ""

  unfoldable pub label_dhcp_relay : Fields → Text
  label_dhcp_relay m = concat (
      codes "dhcrelay ["
      ∷ pick m "kind" "?"
      ∷ codes "] if="
      ∷ or_text (join_field m "interface" ",") (codes "?")
      ∷ codes " → "
      ∷ or_text (join_field m "server" ",") (codes "?")
      ∷ [])

  unfoldable pub label_queue : Fields → Text
  label_queue m = pick m "name" "?" ++ when_set " (" (pick m "interface" "") ")"

  unfoldable pub label_portal : Fields → Text
  label_portal m =
      concat (
        pick m "zone" "?" ∷ codes " on " ∷ or_text (join_field m "interfaces" ",") (codes "?") ∷ [])

  unfoldable pub label_ovpn : Fields → Text
  label_ovpn m = concat (
      codes "["
      ∷ pick m "mode" "?"
      ∷ codes "] "
      ∷ or_text (pick m "description" "") (codes "#" ++ pick m "vpnid" "?")
      ∷ [])

  unfoldable pub label_csc : Fields → Text
  label_csc m = pick m "common_name" "?" ++ when_set " — " (pick m "description" "") ""

  unfoldable pub label_ipsec_p1 : Fields → Text
  label_ipsec_p1 m = concat (
      codes "["
      ∷ pick m "iketype" "?"
      ∷ codes "] "
      ∷ pick m "remote_gateway" "?"
      ∷ when_set " — " (pick m "descr" "") ""
      ∷ [])

  unfoldable pub label_ipsec_p2 : Fields → Text
  label_ipsec_p2 m = concat (
      codes "phase2 ikeid="
      ∷ pick m "ikeid" "?"
      ∷ codes " ["
      ∷ pick m "mode" "?"
      ∷ codes "]"
      ∷ when_set " — " (pick m "descr" "") ""
      ∷ [])

  unfoldable pub label_ipsec_psk : Fields → Text
  label_ipsec_psk m = concat (pick m "ident_type" "?" ∷ codes ":" ∷ pick m "ident" "?" ∷ [])

  unfoldable pub label_pki : Fields → Text
  label_pki m = when_set "[" (pick m "type" "") "] " ++ pick_two m "descr" "refid" "?"

  unfoldable pub label_vip : Fields → Text
  label_vip m = concat (
      codes "["
      ∷ pick m "mode" "?"
      ∷ codes "] "
      ∷ pick m "interface" "?"
      ∷ codes " "
      ∷ pick m "subnet" "?"
      ∷ when_set " vhid=" (pick m "vhid" "") ""
      ∷ [])

  unfoldable pub label_proxyarp : Fields → Text
  label_proxyarp m = concat (pick m "interface" "?" ∷ codes " " ∷ pick m "network" "?" ∷ [])

  unfoldable pub label_apikey : Fields → Text
  label_apikey m = pick m "username" "?" ++ when_set ": " (pick m "descr" "") ""

  unfoldable pub label_pppoe : Fields → Text
  label_pppoe m = strip (concat (pick m "interface" "?" ∷ codes " " ∷ pick m "descr" "" ∷ []))

  -- `m["tag"]`
  unfoldable pub label_tag : Fields → Text
  label_tag m = str (get (codes "tag") m)
