-- ===== src/Worker/Packets.antt =====
-- The packets of worker/worker.c, as userspace_agg/agg.c reads them.
use xdp_gradient_aggregation.Common.{
  ℕ, zero, suc, ◌+◌, ◌*◌, ◌^◌, ◌<◌, ◌≤◌, ◌≡◌, refl, sym, ap, ◌∙◌, Bool, true, Bool-cases, inl, inr,
  List, [], ◌∷◌, Array, u32, arith, ℤ, pos, negsuc,
}
use xdp_gradient_aggregation.Proto.{
  Buf, GradHdr, hdr_at, put_hdr, put_values, store32, value_at, ntohs, ntohl, hdr_size,
  max_chunk_len,
}
use xdp_gradient_aggregation.Proto.ByteOrder.{ntohs-ntohs, ntohl-ntohl, ntohs-lt, ntohl-lt}
use xdp_gradient_aggregation.Proto.Layout.{hdr_at-put_hdr, hdr_at-put_values, value_at-put_values}
use xdp_gradient_aggregation.Proto.Fixed.{word, netsum_to_fixed}
use xdp_gradient_aggregation.Double.{Double}
use xdp_gradient_aggregation.Agg.Packet.{Packet, decode, value_of, is_well_formed}
use xdp_gradient_aggregation.Worker.{Options, packet_len, next_value, fill_from, build, send_from}

-- Options that a worker of a real round has.
pub record IsSound (o : Options) : Type 0 where
  pub job_id : o.job_id < 2 ^ 32
  pub worker_id : o.worker_id < 256
  pub some_workers : 1 ≤ o.num_workers
  pub num_workers : o.num_workers ≤ 256
  pub chunk_len : o.chunk_len ≤ max_chunk_len

-- The header of round `round`.
abbrev pub header : Options → ℕ → Packet
header o round = record {
  job_id = o.job_id;
  round = u32 round;
  chunk_id = 0;
  worker_id = o.worker_id;
  num_workers = o.num_workers;
  chunk_len = o.chunk_len;
}

-- The gradients of one packet, from the state that its round starts in.
unfoldable pub gradient_at : Options → (state : ℕ) → ℕ → Double
gradient_at o state zero = (next_value o state).0
gradient_at o state (suc j) = gradient_at o (next_value o state).1 j

-- The bits that are sent for them.
abbrev pub generated : Options → (state : ℕ) → Array ℕ
generated o state j = word (netsum_to_fixed (gradient_at o state j))

pub word_lt : (x : ℤ) → word x < 2 ^ 32
word_lt (pos n) = omega arith
word_lt (negsuc n) = omega arith

fill_from-put_values :
    (o : Options) (values : Array ℕ) (left i state : ℕ) (b : Buf)
    → ((j : ℕ) → j < left → values (i + j) ≡ generated o state j)
    → (fill_from o left i state b).1 ≡ put_values ntohl hdr_size values left i b
unfolding fill_from put_values gradient_at
fill_from-put_values o values zero i state b h = refl
fill_from-put_values o values (suc left) i state b h =
    let bits = word (netsum_to_fixed (next_value o state).0) in
    let here : values i ≡ bits = ap values (omega arith) ∙ h 0 (omega arith) in
    fill_from-put_values o values left (i + 1) (next_value o state).1
      (store32 b (hdr_size + 4 * i) (ntohl bits))
      (λ j lt. ap values (omega arith) ∙ h (suc j) (omega arith))
    ∙ ap
        (λ (x : ℕ).
          put_values ntohl hdr_size values left (i + 1) (store32 b (hdr_size + 4 * i) (ntohl x)))
        (sym here)

module _ (o : Options) (sound : IsSound o) (round state : ℕ) (b : Buf) where
  abbrev wire : GradHdr
  wire = record {
    job_id = ntohl o.job_id;
    round = ntohl (u32 round);
    chunk_id = ntohl 0;
    worker_id = ntohs o.worker_id;
    num_workers = ntohs o.num_workers;
    chunk_len = ntohs o.chunk_len;
    flags = ntohs 0;
  }

  abbrev values : Array ℕ
  values j = generated o state j

  build-put_values :
      (build o round state b).1 ≡ put_values ntohl hdr_size values o.chunk_len 0 (put_hdr b 0 wire)
  unfolding build
  build-put_values =
      fill_from-put_values o values o.chunk_len 0 state (put_hdr b 0 wire)
        (λ j lt. ap values (omega arith))

  hdr_at-build : hdr_at (build o round state b).1 0 ≡ wire
  hdr_at-build =
      ap (λ (c : Buf). hdr_at c 0) build-put_values
      ∙ hdr_at-put_values ntohl values o.chunk_len 0 hdr_size (put_hdr b 0 wire) (omega arith)
      ∙ hdr_at-put_hdr b 0 wire (record {
        job_id = ntohl-lt _;
        round = ntohl-lt _;
        chunk_id = ntohl-lt _;
        worker_id = ntohs-lt _;
        num_workers = ntohs-lt _;
        chunk_len = ntohs-lt _;
        flags = ntohs-lt _;
      })

  pub decode-build : decode (build o round state b).1 ≡ header o round
  unfolding decode
  decode-build = rw hdr_at-build (
      ground (
        arith,
        ntohl-ntohl o.job_id,
        ntohl-ntohl (u32 round),
        ntohl-ntohl 0,
        ntohs-ntohs o.worker_id,
        ntohs-ntohs o.num_workers,
        ntohs-ntohs o.chunk_len,
        sound.job_id,
        sound.worker_id,
        sound.num_workers,
        sound.chunk_len,
      ))

  pub build-is_well_formed : is_well_formed (decode (build o round state b).1) (packet_len o) ≡ true
  unfolding is_well_formed
  build-is_well_formed =
      rw decode-build
        (ground (arith, sound.worker_id, sound.some_workers, sound.num_workers, sound.chunk_len))

  -- For options with a job below 2^32, a worker below 256, 1 to 256 workers and at most 64
  -- values, agg.c reads back
  pub value_of-build :
      (j : ℕ) → j < o.chunk_len → value_of (build o round state b).1 j ≡ generated o state j
  unfolding value_of
  value_of-build j lt =
      ap (λ (c : Buf). ntohl (value_at c hdr_size j)) build-put_values
      ∙ ap ntohl (
          value_at-put_values ntohl hdr_size values o.chunk_len 0 j (put_hdr b 0 wire) (omega arith)
            (omega arith) (ntohl-lt (values j)))
      ∙ ntohl-ntohl (values j) (word_lt (netsum_to_fixed (gradient_at o state j)))

-- The datagrams are those of the rounds from `round` on: each is accepted by the checks of agg.c
-- and decodes to its round's header.
abbrev pub AreRounds : Options → (round : ℕ) → List Buf → Type 0
AreRounds o round [] = Unit {0}
AreRounds o round (b ∷ bs) =
    (decode b ≡ header o round)
    × (is_well_formed (decode b) (packet_len o) ≡ true)
    × AreRounds o (round + 1) bs

pub send_from-AreRounds :
    (o : Options) (accepts : ℕ → Bool) (left round state : ℕ) (b : Buf)
    → IsSound o
    → AreRounds o round (send_from o accepts left round state b).0
unfolding send_from
send_from-AreRounds o accepts zero round state b sound = tt
send_from-AreRounds o accepts (suc left) round state b sound =
    let r = build o round state b in
    let rest = send_from-AreRounds o accepts left (round + 1) r.0 r.1 sound in
    elim (Bool-cases (accepts round)) [
      | inl ok ↦
          rw (send_from, ok)
            (decode-build o sound round state b, build-is_well_formed o sound round state b, rest)
      | inr failed ↦ rw (send_from, failed) tt
    ]
