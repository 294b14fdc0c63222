-- ===== src/Firewall/Examples.antt =====
-- Runs of `normalizePorts` of internal/services/safe/validation.go.
use oneinstack_panel.Common.{◌≡◌, refl, [], ◌∷◌, any, false, none, some}
use oneinstack_panel.Common.Int.{ℤ}
use oneinstack_panel.Text.{codes, trim_space, is_empty}
use oneinstack_panel.Firewall.{ok, err, blocks_panel, items, normalize_ports, port_set_contains}
use oneinstack_panel.Firewall.Ranges.{item_covers}
use oneinstack_panel.Firewall.Ports.{normalize_ports-covers}
use oneinstack_panel.Firewall.Rules.{IptablesRule, Net, normalize_rule, normalized, ports_of}
use oneinstack_panel.Firewall.Rules.Guarded.{normalize_rule-spares_panel}

-- Ranges are trimmed, written once, and sorted by their starts.
three_ports :
    normalize_ports (codes " 8000-8010, 22 ,+80,0022 , 80-80") (codes "tcp")
    ≡ ok (codes "22" ∷ codes "80" ∷ codes "8000-8010" ∷ [])
unfolding normalize_ports
three_ports = refl

normalize_ports-covers_example :
    port_set_contains (codes "22" ∷ codes "80" ∷ codes "8000-8010" ∷ []) 8005
    ≡ any (item_covers 8005) (items (codes " 8000-8010, 22 ,+80"))
unfolding normalize_ports
normalize_ports-covers_example =
    normalize_ports-covers (codes " 8000-8010, 22 ,+80") (codes "tcp")
      (codes "22" ∷ codes "80" ∷ codes "8000-8010" ∷ []) 8005 refl refl

abbrev any_net : Net
any_net = record { parse_ip = λ s. some s; parse_cidr = λ s. some s }

-- A rule that denies ssh and a range beside the panel's port.
abbrev deny_rule : IptablesRule
deny_rule = record {
  rule_type = [];
  direction = codes " IN ";
  protocol = codes "TCP";
  strategy = codes "deny";
  ips = codes "10.0.0.9, any";
  ports = codes "22, 3000-4000";
  state = ℤ.pos 1;
  remark = [];
  location = [];
  expires_at = none;
}

normalize_rule-spares_panel_example :
    (is_empty (trim_space (ports_of deny_rule)) ≡ false)
    × (any (item_covers 8089) (items (ports_of deny_rule)) ≡ false)
unfolding normalize_rule
normalize_rule-spares_panel_example =
    normalize_rule-spares_panel any_net 100 8089 deny_rule
      (normalized deny_rule (codes "0.0.0.0/0" ∷ codes "10.0.0.9" ∷ [])
        (codes "22" ∷ codes "3000-4000" ∷ []))
      refl refl refl

-- A range around the panel's port is refused.
panel_refused :
    normalize_rule any_net 100 8089 (record deny_rule { ports = codes "8000-9000" })
    ≡ err blocks_panel
unfolding normalize_rule
panel_refused = refl

-- Two halves of all addresses are not refused.
halves_accepted :
    normalize_rule any_net 100 8089
      (record deny_rule { protocol = codes "all"; ips = codes "0.0.0.0/1,128.0.0.0/1"; ports = [] })
    ≡ ok (record (normalized deny_rule (codes "0.0.0.0/1" ∷ codes "128.0.0.0/1" ∷ []) []) {
      protocol = codes "all";
    })
unfolding normalize_rule
halves_accepted = refl
