-- ===== src/Loader/Sent.antt =====
-- ci/netsum_cfg_loader.c and xdp_agg/xdp_agg.c: where the frames go under the entry that is loaded.
use xdp_gradient_aggregation.Common.{
  ℕ, ◌+◌, ◌*◌, ◌^◌, ◌<◌, ◌≡◌, refl, ap, ◌∙◌, true, Option, none, some, List, [], ◌∷◌, Array, Bool,
  u8, u16, ◌>>>◌, arith,
}
use xdp_gradient_aggregation.Proto.{Buf, load16, load32, store16, store32, ntohs}
use xdp_gradient_aggregation.Proto.ByteOrder.{ntohs-ntohs, ntohs-lt}
use xdp_gradient_aggregation.Xdp.Frame.{Config, ip_at, udp_at, put_mac, readdress, retarget}
use xdp_gradient_aggregation.Libc.{Libc}
use xdp_gradient_aggregation.Loader.{Outcome, Args, write_config, load, main, max_slots_per_job}

-- A frame goes to the address, in network byte order, and the port of the parameter server.
pub record IsAddressed (mac : Array ℕ) (ip port : ℕ) (f : Buf) : Type 0 where
  pub to_mac : (i : ℕ) → i < 6 → f i ≡ u8 (mac i)
  pub to_ip : load32 f (ip_at + 16) ≡ ip
  pub to_port : ntohs (load16 f (udp_at + 2)) ≡ port

halfword : (v : ℕ) → v < 2 ^ 16 → u8 v + u8 (v >>> 8) * 2 ^ 8 ≡ v
halfword v h = omega arith

module _ (cfg : Config) (n : ℕ) (frame : Buf) where
  abbrev f : Buf
  f = retarget cfg n frame

  mac-retarget : (i : ℕ) → i < 6 → f i ≡ cfg.ps_mac i
  unfolding retarget readdress put_mac store16 store32
  mac-retarget i lt = ground arith

  ip-retarget : cfg.ps_ip < 2 ^ 32 → load32 f (ip_at + 16) ≡ cfg.ps_ip
  unfolding retarget readdress put_mac load32 store16 store32
  ip-retarget fits = omega (arith, fits)

  port-retarget : cfg.ps_port < 2 ^ 16 → load16 f (udp_at + 2) ≡ cfg.ps_port
  unfolding retarget readdress put_mac load16 store16 store32
  port-retarget fits = halfword cfg.ps_port fits

-- argv behind argv[0].
abbrev pub strings : {Str : Type 0} → Args Str → List Str
strings args = elim args.quota_str [
  | none ↦ args.map_path ∷ args.mac_str ∷ args.ip_str ∷ args.port_str ∷ []
  | some q ↦ args.map_path ∷ args.mac_str ∷ args.ip_str ∷ args.port_str ∷ q ∷ []
]

main-strings :
    {Str : Type 0} (libc : Libc Str) (bpf_obj_get : Str → Option ℕ)
    (bpf_map_update_elem : (fd : ℕ) → Config → Bool) (a b c d : Str) (q : Option Str)
    → let args : Args Str = record {
      map_path = a;
      mac_str = b;
      ip_str = c;
      port_str = d;
      quota_str = q;
    } in
      main libc bpf_obj_get bpf_map_update_elem (strings args)
      ≡ load libc bpf_obj_get bpf_map_update_elem args
unfolding main
main-strings libc bpf_obj_get bpf_map_update_elem a b c d none = refl
main-strings libc bpf_obj_get bpf_map_update_elem a b c d (some q) = refl

-- What a successful run has written.
pub record IsLoaded (mac : Array ℕ) (ip port quota : ℕ) (o : Outcome) : Type 0 where
  pub code : o.code ≡ 0
  pub cfg : Config
  pub written : o.written ≡ some cfg
  pub quota_kept : cfg.max_slots_per_job ≡ quota
  pub addresses : (n : ℕ) (frame : Buf) → IsAddressed mac ip port (retarget cfg n frame)

module _ {Str : Type 0} (libc : Libc Str) (bpf_obj_get : Str → Option ℕ)
    (bpf_map_update_elem : (fd : ℕ) → Config → Bool) (args : Args Str) (mac : Array ℕ) (ip fd : ℕ)
    (mac_ok : libc.sscanf_mac args.mac_str ≡ some mac)
    (ip_ok : libc.inet_pton args.ip_str ≡ some ip) (word : ip < 2 ^ 32)
    (opened : bpf_obj_get args.map_path ≡ some fd)
    (updated : (cfg : Config) → bpf_map_update_elem fd cfg ≡ true) where
  abbrev entry : Config
  entry = record {
    ps_mac = λ i. u8 (mac i);
    ps_ip = ip;
    ps_port = ntohs (u16 (libc.atoi args.port_str));
    max_slots_per_job = max_slots_per_job libc args.quota_str;
  }

  write-entry :
      write_config libc bpf_obj_get bpf_map_update_elem args.map_path entry
      ≡ record { code = 0; written = some entry }
  unfolding write_config
  write-entry = ground (arith, opened, updated entry)

  load-entry :
      load libc bpf_obj_get bpf_map_update_elem args ≡ record { code = 0; written = some entry }
  unfolding load
  load-entry = rw (load, mac_ok, ip_ok) write-entry

  main-entry :
      main libc bpf_obj_get bpf_map_update_elem (strings args)
      ≡ record { code = 0; written = some entry }
  main-entry =
      main-strings libc bpf_obj_get bpf_map_update_elem args.map_path args.mac_str args.ip_str
        args.port_str args.quota_str
      ∙ load-entry

  -- Where the C library reads six numbers of a MAC address and an IPv4 address from the loader's
  -- arguments, and both calls of libbpf succeed, netsum_cfg_loader returns 0 and writes an entry
  -- with the quota of the fifth argument, or 0 without one, under which every frame that xdp_agg.c
  -- retargets goes to the six numbers modulo 256, to the address, and to the port modulo 2^16.
  pub main-IsLoaded :
      IsLoaded mac ip
        (u16 (libc.atoi args.port_str))
        (max_slots_per_job libc args.quota_str)
        (main libc bpf_obj_get bpf_map_update_elem (strings args))
  main-IsLoaded =
      let same = main-entry in
      record {
        code = ap (λ (o : Outcome). o.code) same;
        cfg = entry;
        written = ap (λ (o : Outcome). o.written) same;
        quota_kept = refl;
        addresses = λ n frame. record {
          to_mac = mac-retarget entry n frame;
          to_ip = ip-retarget entry n frame word;
          to_port =
              ap ntohs (port-retarget entry n frame (ntohs-lt _))
              ∙ ntohs-ntohs (u16 (libc.atoi args.port_str)) (omega arith);
        };
      }
