-- ===== src/Telemetry/Config.antt =====
-- src/kinda-sdn/telemetry/config.go: match keys, their identifiers, and the table entries of the
-- telemetry program.
mod Tests
use k8s_inc.Prelude.{
  ℕ, zero, suc, ◌+◌, ◌-◌, ◌*◌, ◌/◌, ◌%◌, ◌^◌, ◌≤◌, ◌<◌, String, ◌≡◌, refl, sym, ap, ◌∙◌, ◌≢◌, ◌↔◌,
  ◌⊎◌, inl, inr, Bool, true, false, not, ◌&&◌, ◌||◌, Option, none, some, List, [], ◌∷◌, ◌++◌, map,
  arith, ltb, leb, if◌then◌else◌, ltb→lt, lt→ltb, leb→le, le→leb, Bool-cases, Option-cases, Eq,
  ◌==◌, ℕ_eq, String_eq, contains, add, remove, contains-add, contains-remove, add_not_empty,
  remove_empty, contains_empty, same_refl, is_some, length, is_empty, get_elem?, replicate,
  find_index, update_at, count_if, length-append, length-update_at, length-replicate, count_if-le,
  get_elem?-update_at, count_if-update_at, find_index_hit, find_index_first, find_index_miss,
  get_elem?-lt, update_at_all, find_index-update_at,
}
use k8s_inc.Prelude.Int.{
  ℤ, pos, negsuc, ◌+ℤ◌, ◌-ℤ◌, neg, leb_ℤ, pos-sub-one, pos-add-one, sub-add_one, add-sub_one,
  neg-neg, ℤ_eq, same_ℤ,
}
use k8s_inc.Prelude.Text.{◌⧺◌, decimal_ℤ}
use k8s_inc.Connector.Entry.{RawTableEntry}

abbrev pub any_port : ℤ
any_port = negsuc 0

abbrev pub any_ipv4 : String
any_ipv4 = "any"

abbrev pub full_telemetry_key : ℤ
full_telemetry_key = pos 0xFF00

pub record ConfigureSourceKey : Type 0 where
  pub src_addr : String
  pub dst_addr : String
  pub src_port : ℤ
  pub dst_port : ℤ
  pub tunneled : Bool

-- The implementations of the interface `MatchKey`.
pub data MatchKey : Type 0 where
  configure_transit_key : MatchKey
  configure_sink_key : ℤ → MatchKey
  reporting_key : ℤ → MatchKey
  activate_source_key : ℤ → MatchKey
  configure_source_key : ConfigureSourceKey → MatchKey

unfoldable pub to_identifier : MatchKey → String
to_identifier configure_transit_key = ""
to_identifier (configure_sink_key egress_port) = decimal_ℤ egress_port
to_identifier (reporting_key collection_id) = decimal_ℤ collection_id
to_identifier (activate_source_key ingress_port) = decimal_ℤ ingress_port
to_identifier (configure_source_key c) =
    let is_tunneled = if c.tunneled then "tun" else "raw" in
    c.src_addr
    ⧺ "_"
    ⧺ c.dst_addr
    ⧺ "_"
    ⧺ decimal_ℤ c.src_port
    ⧺ "_"
    ⧺ decimal_ℤ c.dst_port
    ⧺ "_"
    ⧺ is_tunneled

unfoldable pub forward : String → String → String → String → RawTableEntry
forward ip src_mac dst_mac port = record {
  table_name = "ingress.Forward.ipv4_lpm";
  match_fields = ("hdr.ipv4.dstAddr", ip) ∷ [];
  action_name = "ingress.Forward.ipv4_forward";
  action_params = ("srcAddr", src_mac) ∷ ("dstAddr", dst_mac) ∷ ("port", port) ∷ [];
}

unfoldable pub default_route : String → String → String → RawTableEntry
default_route src_mac dst_mac port = record {
  table_name = "ingress.Forward.ipv4_lpm";
  match_fields = [];
  action_name = "ingress.Forward.ipv4_forward";
  action_params = ("srcAddr", src_mac) ∷ ("dstAddr", dst_mac) ∷ ("port", port) ∷ [];
}

unfoldable pub arp : String → String → RawTableEntry
arp ip mac = record {
  table_name = "ingress.Forward.arp_exact";
  match_fields = ("hdr.arp.dstIp", ip) ∷ [];
  action_name = "ingress.Forward.reply_arp";
  action_params = ("targetMac", mac) ∷ [];
}

unfoldable pub transit : ℤ → ℤ → RawTableEntry
transit switch_id mtu = record {
  table_name = "tb_int_transit";
  match_fields = [];
  action_name = "configure_transit";
  action_params = ("switch_id", decimal_ℤ switch_id) ∷ ("l3_mtu", decimal_ℤ mtu) ∷ [];
}

-- the key's field, its only one
unfoldable pub activate_source : ℤ → RawTableEntry
activate_source ingress_port = record {
  table_name = "tb_activate_source";
  match_fields = ("standard_metadata.ingress_port", decimal_ℤ ingress_port) ∷ [];
  action_name = "activate_source";
  action_params = [];
}

unfoldable pub exact_ipv4_ternary : String → String
exact_ipv4_ternary ip = ip ⧺ "&&&0xFFFFFFFF"

unfoldable pub exact_port_ternary : ℤ → String
exact_port_ternary port = decimal_ℤ port ⧺ "&&&0xFFFF"

-- `if test { match[field] = value }`, for fields that are written once
abbrev pub field_unless : Bool → String → String → List (String × String)
field_unless true name val = []
field_unless false name val = (name, val) ∷ []

unfoldable pub source_match : ConfigureSourceKey → List (String × String)
unfolding exact_port_ternary
source_match key =
    let ipv4_table_name = if key.tunneled then "nested_ipv4" else "ipv4" in
    field_unless (key.src_addr == any_ipv4) ("hdr." ⧺ ipv4_table_name ⧺ ".srcAddr") key.src_addr
    ++ (field_unless (key.dst_addr == any_ipv4) ("hdr." ⧺ ipv4_table_name ⧺ ".dstAddr") key.dst_addr
        ++ (field_unless (key.src_port == any_port) "meta.layer34_metadata.l4_src"
              (exact_port_ternary key.src_port)
            ++ field_unless (key.dst_port == any_port) "meta.layer34_metadata.l4_dst"
                (exact_port_ternary key.dst_port)))

unfoldable pub configure_source : ConfigureSourceKey → ℤ → ℤ → ℤ → ℤ → ℤ → RawTableEntry
unfolding source_match
configure_source key max_hop hop_metadata_len ins_cnt ins_mask collection_id = record {
  table_name = if key.tunneled then "tb_int_source_tunneled" else "tb_int_source";
  match_fields = source_match key;
  action_name = "configure_source";
  action_params =
      ("max_hop", decimal_ℤ max_hop)
      ∷ ("hop_metadata_len", decimal_ℤ hop_metadata_len)
      ∷ ("ins_cnt", decimal_ℤ ins_cnt)
      ∷ ("ins_mask", decimal_ℤ ins_mask)
      ∷ ("collection_id", decimal_ℤ collection_id)
      ∷ [];
}

unfoldable pub configure_sink : ℤ → ℤ → RawTableEntry
configure_sink egress_port sink_reporting_port = record {
  table_name = "tb_int_sink";
  match_fields = ("standard_metadata.egress_spec", decimal_ℤ egress_port) ∷ [];
  action_name = "configure_sink";
  action_params = ("sink_reporting_port", decimal_ℤ sink_reporting_port) ∷ [];
}

unfoldable pub reporting : ℤ → String → String → String → String → ℤ → RawTableEntry
reporting collection_id src_mac src_ip collector_mac collector_ip collector_udp_port = record {
  table_name = "tb_int_reporting";
  match_fields = ("hdr.int_header.collection_id", decimal_ℤ collection_id) ∷ [];
  action_name = "send_report";
  action_params =
      ("dp_mac", src_mac)
      ∷ ("dp_ip", src_ip)
      ∷ ("collector_mac", collector_mac)
      ∷ ("collector_ip", collector_ip)
      ∷ ("collector_port", decimal_ℤ collector_udp_port)
      ∷ [];
}
