-- ===== src/Agg/Exit.antt =====
-- userspace_agg/agg.c: when main comes to its end.
use xdp_gradient_aggregation.Common.{
  ℕ, zero, suc, ◌+◌, ◌*◌, ◌≤◌, ◌≡◌, ◌↔◌, refl, ap, ◌∙◌, Bool, true, leb, ltb, to_nat, if◌then◌else◌,
  Bool-cases, inl, inr, Option, none, some, List, [], ◌∷◌, ℤ, pos, negsuc, pos_part, u16, arith,
}
use xdp_gradient_aggregation.Proto.{Buf, ntohs, hdr_size}
use xdp_gradient_aggregation.Libc.{Libc}
use xdp_gradient_aggregation.Serve.{packets, IsLoop, seen-run, seen-run_unbounded}
use xdp_gradient_aggregation.Agg.Packet.{Clock}
use xdp_gradient_aggregation.Agg.Loop.{
  Config, Input, Process, received_size, is_whole, reap_interval_micros, sweep, deliver, iterate,
  run,
}
use xdp_gradient_aggregation.Agg.Main.{
  Timeval, rcv_timeout, Dest, Before, Outcome, start, optional, config_of, serve, main,
}

abbrev is_packet : Input → Bool
is_packet input = is_whole input.received

abbrev pub datagrams : List Input → ℕ
datagrams = packets is_packet

packets_in-deliver :
    (config : Config) (clock : Clock) (received : Option (Buf × ℕ)) (sent : Bool) (s : Process)
    → (deliver config clock received sent s).1.packets_in
      ≡ s.packets_in + to_nat (is_whole received)
unfolding deliver
packets_in-deliver config clock none sent s = omega arith
packets_in-deliver config clock (some (datagram, size)) sent s =
    elim (Bool-cases (ltb (received_size size) hdr_size)) [
      | inl short ↦ rw (deliver, short) (omega arith)
      | inr whole ↦ rw (deliver, whole) refl
    ]

packets_in-sweep :
    (config : Config) (now reap_now : ℕ) (s : Process)
    → (sweep config now reap_now s).packets_in ≡ s.packets_in
unfolding sweep
packets_in-sweep config now reap_now s = ground arith

packets_in-iterate :
    (config : Config) (input : Input) (s : Process)
    → (iterate config input s).1.packets_in ≡ s.packets_in + to_nat (is_packet input)
unfolding iterate
packets_in-iterate config input s =
    let swept = sweep config input.now input.reap_now s in
    packets_in-deliver config input.clock input.received input.sent swept
    ∙ ap (λ (t : ℕ). t + to_nat (is_packet input))
        (packets_in-sweep config input.now input.reap_now s)

run-IsLoop :
    (config : Config)
    → IsLoop config.max_packets
        (λ (s : Process). s.packets_in)
        is_packet
        (iterate config)
        (run config)
unfolding run
run-IsLoop config = record {
  ends = λ s. refl;
  goes = λ input inputs s on. rw (run, on) refl;
  stops = λ input inputs s off. rw (run, off) refl;
  counts = packets_in-iterate config;
}

-- How main ends: for a negative max_packets, for 0, and for a positive one.
abbrev pub Ends : (max_packets : ℤ) → List Input → Outcome → Type 0
Ends (negsuc k) inputs o = (o.code ≡ some 0) × (o.shown ≡ []) × (o.process.packets_in ≡ 0)
Ends (pos zero) inputs o = (o.code ≡ none) × (o.process.packets_in ≡ datagrams inputs)
Ends (pos (suc k)) inputs o =
    ((o.code ≡ some 0) ↔ (suc k ≤ datagrams inputs))
    × (o.process.packets_in ≡ (if leb (suc k) (datagrams inputs) then suc k else datagrams inputs))

module _ {Str : Type 0} (libc : Libc Str) (before : Before) where
  serve-Ends :
      (max_packets : ℤ) (more : List Str) (dest : Dest) (inputs : List Input)
      → Ends max_packets inputs (serve libc before max_packets more dest inputs)
  unfolding serve
  serve-Ends (negsuc k) more dest inputs = (refl, refl, refl)
  serve-Ends (pos zero) more dest inputs =
      let seen =
        seen-run_unbounded 0 _ is_packet _ _ (run-IsLoop (config_of libc before 0 more)) inputs
          (start before) refl in
      (refl, ground (arith, seen))
  serve-Ends (pos (suc k)) more dest inputs =
      let seen =
        seen-run (suc k) _ is_packet _ _ (run-IsLoop (config_of libc before (suc k) more)) inputs
          (start before) (omega arith) (omega arith) in
      ground (arith, seen)

-- A timeout in microseconds, 0 where there is none.
abbrev pub micros : Option Timeval → ℕ
micros none = 0
micros (some t) = t.sec * 1000000 + t.usec

micros-rcv_timeout :
    (slot_ttl_ms : ℕ)
    → micros (rcv_timeout slot_ttl_ms)
      ≡ (if ltb 0 slot_ttl_ms then reap_interval_micros slot_ttl_ms else 0)
unfolding rcv_timeout reap_interval_micros
micros-rcv_timeout slot_ttl_ms = ground arith

-- What main does once it is set up.
pub record IsServed (max_packets : ℤ) (slot_ttl_ms : ℕ) (inputs : List Input) (o : Outcome)
    : Type 0 where
  pub ends : Ends max_packets inputs o
  -- recvfrom wakes up as often as the reaper is due
  pub wakes : micros o.timeout ≡ (if ltb 0 slot_ttl_ms then reap_interval_micros slot_ttl_ms else 0)

serve-timeout :
    {Str : Type 0} (libc : Libc Str) (before : Before) (max_packets : ℤ) (more : List Str)
    (dest : Dest) (inputs : List Input)
    → (serve libc before max_packets more dest inputs).timeout
      ≡ rcv_timeout (config_of libc before 0 more).slot_ttl_ms
unfolding serve
serve-timeout libc before (pos n) more dest inputs = refl
serve-timeout libc before (negsuc n) more dest inputs = refl

-- agg.c, once its sockets are set up and the address is read: for a positive max_packets main
-- returns 0 exactly when that many datagrams of at least a header have come, and has counted that
-- many, or all that came if they are fewer; for 0 it counts all and never returns, for a negative
-- number it returns 0 with none read. Its receive timeout is the interval of the reaper in
-- microseconds, and there is none where slot_ttl_ms is not positive.
pub main-IsServed :
    {Str : Type 0} (libc : Libc Str) (before : Before)
    (listen_port downstream_ip downstream_port : Str) (more : List Str) (inputs : List Input)
    (ip : ℕ)
    → before.setup ≡ record { in_sock = true; bound = true; out_sock = true }
    → libc.inet_pton downstream_ip ≡ some ip
    → IsServed
        (optional libc before 0 more)
        (pos_part (optional libc before 2 more))
        inputs
        (main libc before (listen_port ∷ downstream_ip ∷ downstream_port ∷ more) inputs)
unfolding main
main-IsServed libc before listen_port downstream_ip downstream_port more inputs ip ready e =
    let max_packets = optional libc before 0 more in
    let dest : Dest = record { ip = ip; port = ntohs (u16 (libc.atoi downstream_port)) } in
    rw (main, ready, e)
      (record {
        ends = serve-Ends libc before max_packets more dest inputs;
        wakes =
            ap micros (serve-timeout libc before max_packets more dest inputs)
            ∙ micros-rcv_timeout (pos_part (optional libc before 2 more));
      })
