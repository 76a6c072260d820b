-- ===== src/Agg/Packet/History.antt =====
-- A slot of userspace_agg/agg.c against the list of the contributions that it has accepted.
use xdp_gradient_aggregation.Common.{
  ℕ, ◌+◌, ◌^◌, ◌<◌, ◌≤◌, ◌≡◌, ◌≢◌, refl, sym, Bool, true, false, ◌&&◌, ◌||◌, ◌==◌, ltb,
  if◌then◌else◌, Array, u32, ◌-◌, arith, ◌∙◌, Bool-cases, ◌⊎◌, inl, inr, List, [], ◌∷◌, length,
}
use native.Mathlib.Decide.{ℕ_discrete}
use xdp_gradient_aggregation.Proto.{max_chunk_len}
use xdp_gradient_aggregation.Agg.{Slot}
use xdp_gradient_aggregation.Agg.Packet.{
  Packet, Clock, Verdict, mismatch, duplicate, partial, complete, latch, absorb, judge, contribute,
}
use xdp_gradient_aggregation.Agg.Packet.Sum.{accumulate_lem}

-- A worker and the values that it sent.
abbrev pub Contribution : Type 0
Contribution = ℕ × Array ℕ

unfoldable pub total : ℕ → List Contribution → ℕ
total i [] = 0
total i ((w, v) ∷ h) = total i h + v i

unfoldable pub contributed : ℕ → List Contribution → Bool
contributed w [] = false
contributed w ((x, v) ∷ h) = w == x || contributed w h

-- The slot has accepted exactly the contributions of `h`.
pub record Represents (h : List Contribution) (s : Slot) : Type 0 where
  pub received : s.contributions_received ≡ length h
  pub seen : (w : ℕ) → s.seen_worker w ≡ contributed w h
  pub sums :
      (i : ℕ) → s.sum i ≡ (if ltb i s.chunk_len && ltb i max_chunk_len then u32 (total i h) else 0)

-- What a contribution does to a slot, by its verdict.
pub record Contributes (clock : Clock) (p : Packet) (v : Array ℕ) (h : List Contribution) (s : Slot)
    (r : Verdict × Slot) : Type 0 where
  -- refused for its length: the slot is unchanged, and was fixed to another length
  pub refused : r.0 ≡ mismatch → (r.1 ≡ s) × (h ≢ []) × (s.chunk_len ≢ p.chunk_len)
  -- refused as a repetition: the slot is unchanged, and the worker has contributed
  pub repeated : r.0 ≡ duplicate → (r.1 ≡ s) × (contributed p.worker_id h ≡ true)
  -- accepted: a new worker, whose values are added
  pub accepted :
      (r.0 ≡ partial) ⊎ (r.0 ≡ complete)
      → (contributed p.worker_id h ≡ false) × Represents ((p.worker_id, v) ∷ h) r.1
  -- complete exactly when the fan-in is reached
  pub completes : r.0 ≡ complete → r.1.num_workers_expected ≤ length h + 1
  pub waits : r.0 ≡ partial → length h + 1 < r.1.num_workers_expected

pub fresh-Represents :
    (s : Slot)
    → s.contributions_received ≡ 0
    → s.sum ≡ (λ i. 0)
    → s.seen_worker ≡ (λ w. false)
    → Represents [] s
unfolding total contributed
fresh-Represents s n z w = record {
  received = n;
  seen = λ x. rw w;
  sums = λ i. rw z (ground arith);
}

-- The slot that the first contribution is added to.
abbrev pub latched : Clock → Packet → Slot → Slot
latched clock p s = record s {
  chunk_len = p.chunk_len;
  num_workers_expected = p.num_workers;
  first_seen_micros = clock.first_seen;
}

-- A slot without contributions has no sums yet, at any length.
pub latched-Represents :
    (clock : Clock) (p : Packet) (s : Slot) → Represents [] s → Represents [] (latched clock p s)
unfolding total
latched-Represents clock p s r = record {
  received = r.received;
  seen = r.seen;
  sums = λ i. ground (arith, r.sums i);
}

module _ (clock : Clock) (p : Packet) (v : Array ℕ) (s : Slot) where
  pub contribute-first :
      s.contributions_received ≡ 0
      → s.seen_worker p.worker_id ≡ false
      → contribute clock p v s ≡ judge (absorb clock p v (latched clock p s))
  unfolding contribute latch
  contribute-first z new = rw (contribute, latch, z, new)

  pub contribute-mismatch :
      s.contributions_received ≢ 0
      → s.chunk_len ≢ p.chunk_len
      → contribute clock p v s ≡ (mismatch, s)
  unfolding contribute latch
  contribute-mismatch n ne = ground arith

  pub contribute-duplicate :
      s.contributions_received ≢ 0
      → s.chunk_len ≡ p.chunk_len
      → s.seen_worker p.worker_id ≡ true
      → contribute clock p v s ≡ (duplicate, s)
  unfolding contribute latch
  contribute-duplicate n e old = ground arith

  pub contribute-next :
      s.contributions_received ≢ 0
      → s.chunk_len ≡ p.chunk_len
      → s.seen_worker p.worker_id ≡ false
      → contribute clock p v s ≡ judge (absorb clock p v s)
  unfolding contribute latch
  contribute-next n e new = ground arith

judge_slot : (s : Slot) → (judge s).1 ≡ s
unfolding judge
judge_slot s = elim (Bool-cases (ltb s.contributions_received s.num_workers_expected)) [
  | inl few ↦ rw (judge, few)
  | inr all ↦ rw (judge, all)
]

judge_complete :
    (s : Slot) → (judge s).0 ≡ complete → s.num_workers_expected ≤ s.contributions_received
unfolding judge
judge_complete s e = ground arith

judge_partial :
    (s : Slot) → (judge s).0 ≡ partial → s.contributions_received < s.num_workers_expected
unfolding judge
judge_partial s e = ground arith

module _ (clock : Clock) (p : Packet) (v : Array ℕ) (h : List Contribution) (s : Slot)
    (r : Represents h s) (few : length h < 2 ^ 16 - 1) (agrees : s.chunk_len ≡ p.chunk_len) where
  -- An accepted contribution is added to the history.
  pub absorb-Represents : Represents ((p.worker_id, v) ∷ h) (absorb clock p v s)
  unfolding absorb total contributed
  absorb-Represents = record {
    received = omega (arith, r.received);
    seen = λ w. ground (arith, r.seen w);
    sums = λ i. ground (arith, accumulate_lem v p.chunk_len s.sum i, r.sums i);
  }

  judge-Contributes :
      (s₀ : Slot)
      → contributed p.worker_id h ≡ false
      → Contributes clock p v h s₀ (judge (absorb clock p v s))
  judge-Contributes s₀ new = record {
    refused = unfold judge in ground arith;
    repeated = unfold judge in ground arith;
    accepted = λ ok. (new, rw judge_slot absorb-Represents);
    completes = λ e.
        rw judge_slot
          (ground (arith, judge_complete (absorb clock p v s) e, absorb-Represents.received));
    waits = λ e.
        rw judge_slot
          (ground (arith, judge_partial (absorb clock p v s) e, absorb-Represents.received));
  }

-- A contribution to a slot that has accepted the history h, shorter than 2^16 - 1, is one of four:
-- refused for its length with the slot unchanged and h not empty, refused as a repetition with the
-- slot unchanged and its worker in h, or accepted as partial or complete with its worker not in h
-- and the slot then holding h with it, complete only when the fan-in is reached and partial only
-- when it is not.
pub contribute-Contributes :
    (clock : Clock) (p : Packet) (v : Array ℕ) (h : List Contribution) (s : Slot)
    → Represents h s
    → length h < 2 ^ 16 - 1
    → Contributes clock p v h s (contribute clock p v s)
contribute-Contributes clock p v [] s r few =
    let first = latched-Represents clock p s r in
    let new : contributed p.worker_id [] ≡ false = unfold contributed in refl in
    rw (contribute-first clock p v s r.received (r.seen p.worker_id ∙ new))
      (judge-Contributes clock p v [] (latched clock p s) first few refl s new)
contribute-Contributes clock p v (c ∷ h) s r few =
    let some_received : s.contributions_received ≢ 0 = omega (arith, r.received) in
    elim (ℕ_discrete s.chunk_len p.chunk_len) [
      | no ne ↦ rw (contribute-mismatch clock p v s some_received ne) (record {
        refused = λ e. (refl, (λ e. cc), ne);
        repeated = λ e. cc;
        accepted = ground arith;
        completes = λ e. cc;
        waits = λ e. cc;
      })
      | yes same ↦ elim (Bool-cases (s.seen_worker p.worker_id)) [
        | inl old ↦ rw (contribute-duplicate clock p v s some_received same old) (record {
          refused = λ e. cc;
          repeated = λ e. (refl, sym (r.seen p.worker_id) ∙ old);
          accepted = ground arith;
          completes = λ e. cc;
          waits = λ e. cc;
        })
        | inr new ↦
            rw (contribute-next clock p v s some_received same new)
              (judge-Contributes clock p v (c ∷ h) s r few same s (sym (r.seen p.worker_id) ∙ new))
      ]
    ]
