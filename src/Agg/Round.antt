-- ===== src/Agg/Round.antt =====
-- A whole round of userspace_agg/agg.c in its main loop, from the datagrams to the one sent on.
pub mod Table
pub mod Emits
pub mod Whole
use xdp_gradient_aggregation.Common.{ℕ, zero, suc, ◌+◌, ◌*◌, ◌≡◌, Bool, true, some, List, [], ◌∷◌}
use xdp_gradient_aggregation.Proto.{Buf, hdr_size}
use xdp_gradient_aggregation.Agg.Packet.{
  Packet, Clock, Event, absorbed, emitted, decode, value_of, is_well_formed,
}
use xdp_gradient_aggregation.Agg.Packet.Round.{Message}
use xdp_gradient_aggregation.Agg.Loop.{Config, Input, Shown, received_size}

-- A datagram that arrives, with what else its iteration reads.
pub record Arrival : Type 0 where
  pub datagram : Buf
  pub size : ℕ
  pub clock : Clock
  pub now : ℕ
  pub reap_now : ℕ
  pub dump_requested : Bool
  pub sent : Bool

abbrev pub input : Arrival → Input
input a = record {
  now = a.now;
  reap_now = a.reap_now;
  dump_requested = a.dump_requested;
  received = some (a.datagram, a.size);
  clock = a.clock;
  sent = a.sent;
}

abbrev pub inputs : List Arrival → List Input
inputs [] = []
inputs (a ∷ as_) = input a ∷ inputs as_

abbrev pub message : Arrival → Message
message a = record { clock = a.clock; packet = decode a.datagram; values = value_of a.datagram }

abbrev pub messages : List Arrival → List Message
messages [] = []
messages (a ∷ as_) = message a ∷ messages as_

-- Each datagram is accepted by the checks, and has the key.
abbrev pub HaveKey : (job_id round chunk_id : ℕ) → List Arrival → Type 0
HaveKey job_id round chunk_id [] = Unit {0}
HaveKey job_id round chunk_id (a ∷ as_) =
    (is_well_formed (decode a.datagram) (received_size a.size) ≡ true)
    × ((decode a.datagram).job_id ≡ job_id)
    × ((decode a.datagram).round ≡ round)
    × ((decode a.datagram).chunk_id ≡ chunk_id)
    × HaveKey job_id round chunk_id as_

abbrev pub events : List Shown → List Event
events [] = []
events (shown ∷ later) = shown.event ∷ events later

-- The events of a round of `n`: the last packet alone has the sum sent on.
abbrev pub round_events : ℕ → (datagram : Buf) → (len : ℕ) → List Event
round_events zero datagram len = []
round_events (suc zero) datagram len = emitted datagram len ∷ []
round_events (suc (suc n)) datagram len = absorbed ∷ round_events (suc n) datagram len

-- A quota and no reaper, and no end.
abbrev pub config : (quota : ℕ) → Config
config quota = record { max_packets = 0; job_quota = quota; slot_ttl_ms = 0 }
