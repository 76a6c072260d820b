-- ===== src/Paramserver/Exit.antt =====
-- paramserver/paramserver.c: when main comes to its end.
use xdp_gradient_aggregation.Common.{
  ℕ, zero, suc, ◌+◌, ◌≤◌, ◌≡◌, ◌↔◌, refl, Bool, true, leb, ltb, to_nat, if◌then◌else◌, Bool-cases,
  inl, inr, Option, none, some, List, [], ◌∷◌, ℤ, pos, negsuc, arith,
}
use xdp_gradient_aggregation.Proto.{Buf, hdr_size}
use xdp_gradient_aggregation.Agg.Loop.{received_size, is_whole}
use xdp_gradient_aggregation.Libc.{Libc}
use xdp_gradient_aggregation.Serve.{packets, IsLoop, seen-run, seen-run_unbounded}
use xdp_gradient_aggregation.Paramserver.{Clock, Server, Input, Event, deliver, run}
use xdp_gradient_aggregation.Paramserver.Main.{Outcome, start, max_packets_of, serve, main}

abbrev step : Bool → Input → Server → Event × Server
step agg_mode input = deliver agg_mode input.clock input.received

abbrev is_packet : Input → Bool
is_packet input = is_whole input.received

abbrev pub datagrams : List Input → ℕ
datagrams = packets is_packet

packets_seen-deliver :
    (agg_mode : Bool) (clock : Clock) (received : Option (Buf × ℕ)) (s : Server)
    → (deliver agg_mode clock received s).1.packets_seen
      ≡ s.packets_seen + to_nat (is_whole received)
unfolding deliver
packets_seen-deliver agg_mode clock none s = omega arith
packets_seen-deliver agg_mode clock (some (datagram, size)) s =
    elim (Bool-cases (ltb (received_size size) hdr_size)) [
      | inl short ↦ rw (deliver, short) (omega arith)
      | inr whole ↦ rw (deliver, whole) refl
    ]

run-IsLoop :
    (n : ℕ) (agg_mode : Bool)
    → IsLoop n (λ (s : Server). s.packets_seen) is_packet (step agg_mode) (run n agg_mode)
unfolding run
run-IsLoop n agg_mode = record {
  ends = λ s. refl;
  goes = λ input inputs s on. rw (run, on) refl;
  stops = λ input inputs s off. rw (run, off) refl;
  counts = λ input s. packets_seen-deliver agg_mode input.clock input.received s;
}

-- How main ends: for a negative max_packets, for 0, and for a positive one.
abbrev pub Ends : (max_packets : ℤ) → List Input → Outcome → Type 0
Ends (negsuc k) inputs o = (o.code ≡ some 0) × (o.events ≡ []) × (o.server.packets_seen ≡ 0)
Ends (pos zero) inputs o = (o.code ≡ none) × (o.server.packets_seen ≡ datagrams inputs)
Ends (pos (suc k)) inputs o =
    ((o.code ≡ some 0) ↔ (suc k ≤ datagrams inputs))
    × (o.server.packets_seen ≡ (if leb (suc k) (datagrams inputs) then suc k else datagrams inputs))

serve-Ends :
    (packet : Buf) (max_packets : ℤ) (agg_mode : Bool) (inputs : List Input)
    → Ends max_packets inputs (serve packet max_packets agg_mode inputs)
unfolding serve
serve-Ends packet (negsuc k) agg_mode inputs = (refl, refl, refl)
serve-Ends packet (pos zero) agg_mode inputs =
    let seen =
      seen-run_unbounded 0 _ is_packet _ _ (run-IsLoop 0 agg_mode) inputs (start packet) refl in
    (refl, ground (arith, seen))
serve-Ends packet (pos (suc k)) agg_mode inputs =
    let seen =
      seen-run (suc k) _ is_packet _ _ (run-IsLoop (suc k) agg_mode) inputs (start packet)
        (omega arith) (omega arith) in
    ground (arith, seen)

-- paramserver.c, once its socket is bound: for a positive max_packets main returns 0 exactly when
-- that many datagrams of at least a header have come, and has counted that many, or all that came
-- if they are fewer; for 0 it counts all and never returns, for a negative number it returns 0
-- with none read.
pub main-Ends :
    {Str : Type 0} (libc : Libc Str) (packet : Buf) (listen_port mode : Str) (more : List Str)
    (inputs : List Input)
    → Ends
        (max_packets_of libc more)
        inputs
        (main packet libc true true (listen_port ∷ mode ∷ more) inputs)
unfolding main
main-Ends libc packet listen_port mode more inputs =
    serve-Ends packet (max_packets_of libc more) (libc.is_agg mode) inputs
