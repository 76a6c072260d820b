-- ===== src/Agg/Main.antt =====
-- userspace_agg/agg.c: main, from its arguments to its exit. Whether the calls that set the sockets
-- up succeed, the clock before the loop, what the stack has where the packets go, and what the
-- iterations read are inputs.
use xdp_gradient_aggregation.Common.{
  ℕ, ◌*◌, ◌/◌, ◌%◌, Bool, ltb, if◌then◌else◌, Option, none, some, List, [], ◌∷◌, ℤ, pos, zero, suc,
  ◌&&◌, negsuc, pos_part, u16,
}
use xdp_gradient_aggregation.Proto.{Buf, ntohs}
use xdp_gradient_aggregation.Libc.{Libc}
use xdp_gradient_aggregation.Serve.{goes_on}
use xdp_gradient_aggregation.Agg.{empty_tables}
use xdp_gradient_aggregation.Agg.Loop.{Config, Input, Process, Shown, run}

-- tv_sec and tv_usec of the receive timeout; none is set where the reaper is off.
pub record Timeval : Type 0 where
  pub sec : ℕ
  pub usec : ℕ

unfoldable pub rcv_timeout : (slot_ttl_ms : ℕ) → Option Timeval
rcv_timeout slot_ttl_ms =
    let quarter = slot_ttl_ms / 4 in
    let interval_ms = if ltb quarter 1 then 1 else quarter in
    if ltb 0 slot_ttl_ms
    then some (record { sec = interval_ms / 1000; usec = interval_ms % 1000 * 1000 })
    else none

pub record Dest : Type 0 where
  pub ip : ℕ
  pub port : ℕ

-- What of the set-up succeeds.
pub record Setup : Type 0 where
  pub in_sock : Bool
  pub bound : Bool
  pub out_sock : Bool

-- What the process starts with.
pub record Before : Type 0 where
  pub setup : Setup
  pub now : ℕ
  pub in_packet : Buf
  pub out_packet : Buf

-- The code that main returns, or `none` while the loop goes on; where the sums go, and how long
-- recvfrom waits; what the iterations showed, and the locals after them.
pub record Outcome : Type 0 where
  pub code : Option ℕ
  pub dest : Option Dest
  pub timeout : Option Timeval
  pub shown : List Shown
  pub process : Process

abbrev pub start : Before → Process
start before = record {
  tables = empty_tables;
  in_packet = before.in_packet;
  out_packet = before.out_packet;
  packets_in = 0;
  packets_out = 0;
  last_reap_micros = before.now;
}

module _ {Str : Type 0} (libc : Libc Str) (before : Before) where
  abbrev failed : Outcome
  failed = record { code = some 1; dest = none; timeout = none; shown = []; process = start before }

  -- The argument at an index of the optional ones, 0 where it is missing.
  abbrev pub optional : ℕ → List Str → ℤ
  optional i [] = pos 0
  optional zero (s ∷ rest) = libc.atol s
  optional (suc i) (s ∷ rest) = optional i rest

  abbrev pub config_of : (max_packets : ℕ) → List Str → Config
  config_of max_packets more = record {
    max_packets = max_packets;
    job_quota = pos_part (optional 1 more);
    slot_ttl_ms = pos_part (optional 2 more);
  }

  -- From the loop on.
  unfoldable pub serve : (max_packets : ℤ) → List Str → Dest → List Input → Outcome
  unfolding run rcv_timeout
  serve (pos n) more dest inputs =
      let config = config_of n more in
      let (shown, last) = run config inputs (start before) in
      record {
        code = if goes_on n last.packets_in then none else some 0;
        dest = some dest;
        timeout = rcv_timeout config.slot_ttl_ms;
        shown = shown;
        process = last;
      }
  serve (negsuc n) more dest inputs = record {
    code = some 0;
    dest = some dest;
    timeout = rcv_timeout (config_of 0 more).slot_ttl_ms;
    shown = [];
    process = start before;
  }

  unfoldable pub main : List Str → List Input → Outcome
  unfolding serve
  main (listen_port ∷ downstream_ip ∷ downstream_port ∷ more) inputs =
      if before.setup.in_sock && before.setup.bound && before.setup.out_sock
      then elim (libc.inet_pton downstream_ip) [
        | none ↦ failed
        | some ip ↦
            serve (optional 0 more) more
              (record { ip = ip; port = ntohs (u16 (libc.atoi downstream_port)) }) inputs
      ]
      else failed
  main _ inputs = failed
