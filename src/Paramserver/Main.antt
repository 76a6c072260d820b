-- ===== src/Paramserver/Main.antt =====
-- paramserver/paramserver.c: main, from its arguments to its exit. Whether socket and bind succeed,
-- what the stack has where the packets go, and what the iterations are given are inputs.
use xdp_gradient_aggregation.Common.{
  ℕ, Bool, if◌then◌else◌, Option, none, some, List, [], ◌∷◌, ℤ, pos, negsuc,
}
use xdp_gradient_aggregation.Proto.{Buf}
use xdp_gradient_aggregation.Libc.{Libc}
use xdp_gradient_aggregation.Serve.{goes_on}
use xdp_gradient_aggregation.Paramserver as Paramserver
use xdp_gradient_aggregation.Paramserver.{Event, Server, Input, run}

-- The code that main returns, or `none` while it waits for a packet, what it did with the packets,
-- and where it stands.
pub record Outcome : Type 0 where
  pub code : Option ℕ
  pub events : List Event
  pub server : Server

abbrev pub max_packets_of : {Str : Type 0} → Libc Str → List Str → ℤ
max_packets_of libc [] = pos 0
max_packets_of libc (s ∷ rest) = libc.atol s

module _ (packet : Buf) where
  abbrev pub start : Server
  start = record Paramserver.start { packet = packet }

  abbrev failed : Outcome
  failed = record { code = some 1; events = []; server = start }

  -- From the loop on.
  unfoldable pub serve : (max_packets : ℤ) → (agg_mode : Bool) → List Input → Outcome
  unfolding run
  serve (pos n) agg_mode inputs =
      let (events, last) = run n agg_mode inputs start in
      record {
        code = if goes_on n last.packets_seen then none else some 0;
        events = events;
        server = last;
      }
  serve (negsuc n) agg_mode inputs = record { code = some 0; events = []; server = start }

  module _ {Str : Type 0} (libc : Libc Str) (has_socket binds : Bool) where
    unfoldable pub main : List Str → List Input → Outcome
    unfolding serve
    main (listen_port ∷ mode ∷ more) inputs =
        if has_socket
        then (if binds then serve (max_packets_of libc more) (libc.is_agg mode) inputs else failed)
        else failed
    main _ inputs = failed
