-- ===== src/Telemetry/Config/Tests.antt =====
-- Entries and identifiers of a few keys.
use k8s_inc.Prelude.{◌≡◌, refl, true, [], ◌∷◌, ℕ_eq, String_eq}
use k8s_inc.Prelude.Int.{pos, ℤ_eq}
use k8s_inc.Prelude.Text.{decimal_ℤ}
use k8s_inc.Telemetry.Config.{
  ConfigureSourceKey, configure_source_key, to_identifier, source_match, any_port, any_ipv4,
}

abbrev web_key : ConfigureSourceKey
web_key = record {
  src_addr = "10.0.0.1&&&0xFFFFFFFF";
  dst_addr = any_ipv4;
  src_port = any_port;
  dst_port = pos 80;
  tunneled = true;
}

web_key_identifier :
    to_identifier (configure_source_key web_key) ≡ "10.0.0.1&&&0xFFFFFFFF_any_-1_80_tun"
unfolding to_identifier decimal_ℤ
web_key_identifier = refl

web_key_match :
    source_match web_key
    ≡ ("hdr.nested_ipv4.srcAddr", "10.0.0.1&&&0xFFFFFFFF")
      ∷ ("meta.layer34_metadata.l4_dst", "80&&&0xFFFF")
      ∷ []
unfolding source_match decimal_ℤ
web_key_match = refl
