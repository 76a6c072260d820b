-- ===== src/Loader.antt =====
-- ci/netsum_cfg_loader.c: the program that writes the entry of config_map. The C library and libbpf
-- are parameters: what the first makes of a string, and whether the two calls of libbpf succeed.
pub mod Sent
use xdp_gradient_aggregation.Common.{
  ℕ, Bool, true, false, Option, none, some, List, [], ◌∷◌, Array, u8, u16, u32,
}
use xdp_gradient_aggregation.Libc.{Libc}
use xdp_gradient_aggregation.Proto.{ntohs}
use xdp_gradient_aggregation.Xdp.Frame.{Config}

-- What main returns, and what it has written under key 0 of config_map.
pub record Outcome : Type 0 where
  pub code : ℕ
  pub written : Option Config

abbrev pub failed : Outcome
failed = record { code = 1; written = none }

-- The strings after argv[0].
pub record Args (Str : Type 0) : Type 0 where
  pub map_path : Str
  pub mac_str : Str
  pub ip_str : Str
  pub port_str : Str
  -- argv[5]
  pub quota_str : Option Str

module _ {Str : Type 0} (libc : Libc Str) where
  -- The bytes of the address.
  abbrev pub parse_mac : Str → Option (Array ℕ)
  parse_mac s = elim (libc.sscanf_mac s) [ none ↦ none | some b ↦ some (λ i. u8 (b i)) ]

  abbrev pub max_slots_per_job : Option Str → ℕ
  max_slots_per_job none = 0
  max_slots_per_job (some s) = u32 (libc.strtoul s)

module _ {Str : Type 0} (libc : Libc Str) (bpf_obj_get : Str → Option ℕ)
    (bpf_map_update_elem : (fd : ℕ) → Config → Bool) where
  -- From bpf_obj_get on.
  unfoldable pub write_config : Str → Config → Outcome
  write_config map_path cfg = elim (bpf_obj_get map_path) [
    | none ↦ failed
    | some fd ↦ elim (bpf_map_update_elem fd cfg) [
      | true ↦ record { code = 0; written = some cfg }
      | false ↦ failed
    ]
  ]

  -- With four or five arguments.
  unfoldable pub load : Args Str → Outcome
  load args = elim (parse_mac libc args.mac_str) [
    | none ↦ failed
    | some ps_mac ↦ elim (libc.inet_pton args.ip_str) [
      | none ↦ failed
      | some ps_ip ↦ write_config args.map_path (record {
        ps_mac = ps_mac;
        ps_ip = ps_ip;
        ps_port = ntohs (u16 (libc.atoi args.port_str));
        max_slots_per_job = max_slots_per_job libc args.quota_str;
      })
    ]
  ]

  unfoldable pub main : List Str → Outcome
  main (a ∷ b ∷ c ∷ d ∷ []) =
      load (record { map_path = a; mac_str = b; ip_str = c; port_str = d; quota_str = none })
  main (a ∷ b ∷ c ∷ d ∷ e ∷ []) =
      load (record { map_path = a; mac_str = b; ip_str = c; port_str = d; quota_str = some e })
  main _ = failed
