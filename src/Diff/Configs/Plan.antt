-- ===== src/Diff/Configs/Plan.antt =====
-- How `diff_configs` of pfsense_shared/pfsense_diff.py compares each field of a ParsedConfig.
use pfsense_backups.Prelude.{Bool, true, false, List, [], ◌∷◌, ◌++◌, String}
use pfsense_backups.Store.{Text}
use pfsense_backups.Diff.Data.{Fields}
use pfsense_backups.Diff.Labels.{
  Python, label_sysctl, label_cron, label_interface, label_named, label_bridge, label_tunnel,
  label_ppp, label_lagg, label_wol, label_route, label_vip, label_firewall, label_nat, label_dyndns,
  label_dhcp, label_dhcp_relay, label_queue, label_portal, label_igmp, label_radvd, label_voucher,
  label_ovpn, label_csc, label_ipsec_p1, label_ipsec_p2, label_ipsec_psk, label_pki, label_proxyarp,
  label_apikey, label_pppoe, label_tag,
}

-- The field; for a list, the attribute that identifies a row, the label and whether order counts.
pub data Section : Type 0 where
  model : String → Section
  rows : String → String → (Python → Fields → Text) → Bool → Section
  scalar : String → Section

-- From `system` to `syslog`.
unfoldable pub plan_first : List Section
plan_first =
    model "system"
    ∷ model "revision"
    ∷ rows "sysctl" "tunable" label_sysctl false
    ∷ rows "cron" "key" label_cron false
    ∷ rows "interfaces" "key" label_interface false
    ∷ rows "vlans" "key" label_named false
    ∷ rows "bridges" "bridgeif" label_bridge false
    ∷ rows "gifs" "name" label_tunnel false
    ∷ rows "gres" "name" label_tunnel false
    ∷ rows "ppps" "ptpid" label_ppp false
    ∷ rows "qinqs" "key" label_named false
    ∷ rows "laggs" "laggif" label_lagg false
    ∷ rows "wol" "mac" label_wol false
    ∷ rows "gateways" "name" label_named false
    ∷ rows "gateway_groups" "name" label_named false
    ∷ rows "static_routes" "key" label_route false
    ∷ rows "virtual_ips" "key" label_vip false
    ∷ model "hasync"
    ∷ rows "firewall_rules" "key" label_firewall true
    ∷ rows "nat_rules" "key" label_nat true
    ∷ rows "aliases" "name" label_named false
    ∷ rows "dyndns_entries" "key" label_dyndns false
    ∷ model "notifications"
    ∷ rows "dhcp_servers" "interface" label_dhcp false
    ∷ rows "dhcp_relays" "kind" label_dhcp_relay false
    ∷ model "dns"
    ∷ model "ntpd"
    ∷ model "snmpd"
    ∷ model "syslog"
    ∷ []

-- From `schedules` to `config_version`.
unfoldable pub plan_rest : List Section
plan_rest =
    rows "schedules" "name" label_named false
    ∷ rows "shaper_queues" "name" label_queue false
    ∷ rows "dnshaper_pipes" "name" label_named false
    ∷ rows "lb_pools" "name" label_named false
    ∷ rows "lb_virtual_servers" "name" label_named false
    ∷ rows "captive_portal_zones" "zone" label_portal false
    ∷ rows "igmpproxy_entries" "key" label_igmp false
    ∷ rows "radvd_interfaces" "interface" label_radvd false
    ∷ model "ups"
    ∷ rows "voucher_rolls" "number" label_voucher false
    ∷ model "ftpproxy"
    ∷ rows "openvpn_servers" "vpnid" label_ovpn false
    ∷ rows "openvpn_clients" "vpnid" label_ovpn false
    ∷ rows "openvpn_cscs" "common_name" label_csc false
    ∷ rows "ipsec_phase1" "ikeid" label_ipsec_p1 false
    ∷ rows "ipsec_phase2" "uniqid" label_ipsec_p2 false
    ∷ rows "ipsec_psks" "key" label_ipsec_psk false
    ∷ rows "certificate_authorities" "refid" label_pki false
    ∷ rows "certificates" "refid" label_pki false
    ∷ rows "crls" "refid" label_pki false
    ∷ model "installedpackages"
    ∷ rows "users" "name" label_named false
    ∷ rows "groups" "name" label_named false
    ∷ rows "authservers" "name" label_named false
    ∷ model "sshdata"
    ∷ model "lastchange"
    ∷ model "theme"
    ∷ model "diag"
    ∷ model "dhcp_backend"
    ∷ model "legacy_bridge"
    ∷ rows "proxyarp" "key" label_proxyarp false
    ∷ rows "interface_groups" "ifname" label_named false
    ∷ model "ezshaper"
    ∷ model "ovpnserver_wizard"
    ∷ rows "apikeys" "key" label_apikey false
    ∷ model "l2tp"
    ∷ rows "pppoe_servers" "key" label_pppoe false
    ∷ rows "unrecognized_sections" "tag" label_tag false
    ∷ scalar "config_version"
    ∷ []

-- The fields of a ConfigDiff, in their order.
unfoldable pub plan : List Section
unfolding plan_first plan_rest
plan = plan_first ++ plan_rest
