-- ===== src/Agg/Packet/Round.antt =====
-- A whole round of userspace_agg/agg.c at its slot: one contribution from each expected worker.
use xdp_gradient_aggregation.Common.{
  ℕ, zero, suc, ◌+◌, ◌^◌, ◌<◌, ◌≤◌, ◌≡◌, refl, sym, false, Array, u32, arith, ap, ap₂, ◌∙◌, List,
  [], ◌∷◌, length,
}
use mathlib.Core.List.{Perm, Permᴰ}
use mathlib.Core.Logic.{∥∥₁_elim}
use native.Mathlib.Nat.{ℕ_set}
use xdp_gradient_aggregation.Proto.{max_chunk_len}
use xdp_gradient_aggregation.Agg.{Slot}
use xdp_gradient_aggregation.Agg.Packet.{
  Packet, Clock, Verdict, partial, complete, absorb, judge, contribute,
}
use xdp_gradient_aggregation.Agg.Packet.History.{
  Contribution, total, contributed, Represents, latched, latched-Represents, contribute-first,
  contribute-next, absorb-Represents,
}

pub record Message : Type 0 where
  pub clock : Clock
  pub packet : Packet
  pub values : Array ℕ

-- Contributions to one slot, in order.
unfoldable pub feed : Slot → List Message → List Verdict × Slot
feed s [] = ([], s)
feed s (m ∷ ms) =
    let (v, s') = contribute m.clock m.packet m.values s in
    let (vs, last) = feed s' ms in (v ∷ vs, last)

abbrev pub contribution : Message → Contribution
contribution m = (m.packet.worker_id, m.values)

-- Each message is from a worker that neither stands in `h` nor comes twice, at one length.
abbrev pub AreNew : ℕ → List Contribution → List Message → Type 0
AreNew len h [] = Unit {0}
AreNew len h (m ∷ ms) =
    (m.packet.chunk_len ≡ len)
    × (contributed m.packet.worker_id h ≡ false)
    × AreNew len (contribution m ∷ h) ms

-- The verdicts of a round of `n`: the last contribution alone completes it.
abbrev pub round_verdicts : ℕ → List Verdict
round_verdicts zero = []
round_verdicts (suc zero) = complete ∷ []
round_verdicts (suc (suc n)) = partial ∷ round_verdicts (suc n)

abbrev pub sum_at : ℕ → List Message → ℕ
sum_at i [] = 0
sum_at i (m ∷ ms) = m.values i + sum_at i ms

judge-partial :
    (s : Slot) → s.contributions_received < s.num_workers_expected → judge s ≡ (partial, s)
unfolding judge
judge-partial s h = ground arith

judge-complete :
    (s : Slot) → s.num_workers_expected ≤ s.contributions_received → judge s ≡ (complete, s)
unfolding judge
judge-complete s h = ground arith

-- What a finished round leaves.
pub record IsRound (len n : ℕ) (sums : Array ℕ) (r : List Verdict × Slot) : Type 0 where
  pub verdicts : r.0 ≡ round_verdicts n
  pub chunk_len : r.1.chunk_len ≡ len
  pub sum : (i : ℕ) → i < len → i < max_chunk_len → r.1.sum i ≡ u32 (sums i)

-- The step of the induction: the message is accepted into `s`, which is `s₀` with the length and
-- fan-in fixed.
module _ (len : ℕ) (m : Message) (h : List Contribution) (s₀ s : Slot)
    (step : contribute m.clock m.packet m.values s₀ ≡ judge (absorb m.clock m.packet m.values s))
    (r : Represents h s) (l : s.chunk_len ≡ len) (same : m.packet.chunk_len ≡ len)
    (few : length h + 1 < 2 ^ 16) where
  abbrev added : Slot
  added = absorb m.clock m.packet m.values s

  added-Represents : Represents (contribution m ∷ h) added
  added-Represents = absorb-Represents m.clock m.packet m.values h s r (omega arith) (l ∙ sym same)

  last-IsRound :
      s.num_workers_expected ≡ length h + 1
      → IsRound len 1 (λ i. total i h + sum_at i (m ∷ [])) (feed s₀ (m ∷ []))
  unfolding feed
  last-IsRound e =
      let received = added-Represents.received in
      let done : contribute m.clock m.packet m.values s₀ ≡ (complete, added) =
        step ∙ judge-complete added (unfold absorb in omega (arith, r.received, received)) in
      rw done (record {
        verdicts = refl;
        chunk_len = unfold absorb in l;
        sum = λ i lt most. unfold absorb total in ground (arith, added-Represents.sums i);
      })

  more-IsRound :
      (ms : List Message)
      → length h + 1 < s.num_workers_expected
      → 0 < length ms
      → IsRound len (length ms) (λ i. total i (contribution m ∷ h) + sum_at i ms) (feed added ms)
      → IsRound len (length (m ∷ ms)) (λ i. total i h + sum_at i (m ∷ ms)) (feed s₀ (m ∷ ms))
  unfolding feed
  more-IsRound [] e pos rest = absurd (omega arith)
  more-IsRound (k ∷ ms) e pos rest =
      let received = added-Represents.received in
      let waits : contribute m.clock m.packet m.values s₀ ≡ (partial, added) =
        step ∙ judge-partial added (unfold absorb in omega (arith, r.received, received)) in
      rw waits (record {
        verdicts = ap (λ vs. partial ∷ vs) rest.verdicts;
        chunk_len = rest.chunk_len;
        sum = λ i lt most. rest.sum i lt most ∙ ap (λ (t : ℕ). u32 t) (unfold total in omega arith);
      })

rest-IsRound :
    (len : ℕ) (m : Message) (ms : List Message) (h : List Contribution) (s₀ s : Slot)
    → contribute m.clock m.packet m.values s₀ ≡ judge (absorb m.clock m.packet m.values s)
    → Represents h s
    → s.chunk_len ≡ len
    → s.num_workers_expected ≡ length h + length (m ∷ ms)
    → length h + length (m ∷ ms) < 2 ^ 16
    → AreNew len h (m ∷ ms)
    → IsRound len (length (m ∷ ms)) (λ i. total i h + sum_at i (m ∷ ms)) (feed s₀ (m ∷ ms))
rest-IsRound len m [] h s₀ s step r l e few new =
    last-IsRound len m h s₀ s step r l new.0 (omega arith) (omega arith)
rest-IsRound len m (k ∷ ms) h s₀ s step r l e few new =
    let s' = absorb m.clock m.packet m.values s in
    let r' = added-Represents len m h s₀ s step r l new.0 (omega arith) in
    let l' : s'.chunk_len ≡ len = unfold absorb in l in
    let e' : s'.num_workers_expected ≡ s.num_workers_expected = unfold absorb in refl in
    let next =
      contribute-next k.clock k.packet k.values s' (omega (arith, r'.received)) (l' ∙ sym new.2.0)
        (r'.seen k.packet.worker_id ∙ new.2.1) in
    more-IsRound len m h s₀ s step r l new.0 (omega arith) (k ∷ ms) (omega arith) (omega arith) (
      rest-IsRound len k ms (contribution m ∷ h) s' s' next r' l' (omega (arith, e')) (omega arith)
        new.2)

-- To a slot with nothing accepted, n workers (n below 2^16, the fan-in of the first packet)
-- contribute once each with one length: every verdict but the last is partial, the last is
-- complete, and the slot then has that length and holds the sums of all values modulo 2^32, at
-- each index below the length and below 64.
pub feed-IsRound :
    (m : Message) (ms : List Message) (s : Slot)
    → Represents [] s
    → m.packet.num_workers ≡ length (m ∷ ms)
    → length (m ∷ ms) < 2 ^ 16
    → AreNew m.packet.chunk_len [] (m ∷ ms)
    → IsRound m.packet.chunk_len (length (m ∷ ms)) (λ i. sum_at i (m ∷ ms)) (feed s (m ∷ ms))
feed-IsRound m ms s r e few new =
    let s₁ = latched m.clock m.packet s in
    let r₁ : Represents [] s₁ = latched-Represents m.clock m.packet s r in
    let unseen = r.seen m.packet.worker_id ∙ new.1 in
    let first = contribute-first m.clock m.packet m.values s r.received unseen in
    let all =
      rest-IsRound m.packet.chunk_len m ms [] s s₁ first r₁ refl (omega (arith, e)) (omega arith)
        new in
    record {
      verdicts = all.verdicts;
      chunk_len = all.chunk_len;
      sum = λ i lt most. all.sum i lt most ∙ ap (λ (t : ℕ). u32 t) (unfold total in omega arith);
    }

sum_at-Permᴰ : (i : ℕ) {ms ns : List Message} → Permᴰ ms ns → sum_at i ms ≡ sum_at i ns
sum_at-Permᴰ i Permᴰ.nil = refl
sum_at-Permᴰ i (Permᴰ.cons e p) = ap₂ (λ (m : Message) (t : ℕ). m.values i + t) e (sum_at-Permᴰ i p)
sum_at-Permᴰ i (Permᴰ.swap {l = l} e f) =
    let a = ap (λ (m : Message). m.values i) e in
    let b = ap (λ (m : Message). m.values i) f in omega (arith, a, b)
sum_at-Permᴰ i (Permᴰ.trans p q) = sum_at-Permᴰ i p ∙ sum_at-Permᴰ i q

sum_at-Perm : (i : ℕ) (ms ns : List Message) → Perm ms ns → sum_at i ms ≡ sum_at i ns
sum_at-Perm i ms ns p = ∥∥₁_elim p (ℕ_set _ _) (λ q. sum_at-Permᴰ i q)

-- Two rounds of the same messages in different orders, each in a slot with nothing accepted and
-- with as many workers, fewer than 2^16, as messages, end with equal sums at each index below both
-- first packets' length and below 64.
pub feed-Perm :
    (m n : Message) (ms ns : List Message) (s t : Slot)
    → Represents [] s
    → Represents [] t
    → Perm (m ∷ ms) (n ∷ ns)
    → m.packet.num_workers ≡ length (m ∷ ms)
    → n.packet.num_workers ≡ length (n ∷ ns)
    → length (m ∷ ms) < 2 ^ 16
    → length (n ∷ ns) < 2 ^ 16
    → AreNew m.packet.chunk_len [] (m ∷ ms)
    → AreNew n.packet.chunk_len [] (n ∷ ns)
    → (i : ℕ) → i < m.packet.chunk_len
    → i < n.packet.chunk_len
    → i < max_chunk_len
    → (feed s (m ∷ ms)).1.sum i ≡ (feed t (n ∷ ns)).1.sum i
feed-Perm m n ms ns s t rs rt p em en fm fn newm newn i ltm ltn most =
    let here = (feed-IsRound m ms s rs em fm newm).sum i ltm most in
    let there = (feed-IsRound n ns t rt en fn newn).sum i ltn most in
    here ∙ ap (λ (x : ℕ). u32 x) (sum_at-Perm i (m ∷ ms) (n ∷ ns) p) ∙ sym there
