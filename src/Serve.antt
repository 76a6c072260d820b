-- ===== src/Serve.antt =====
-- The loop `while (max_packets == 0 || seen < max_packets)` that userspace_agg/agg.c and
-- paramserver/paramserver.c have in common: how far its counter gets.
use xdp_gradient_aggregation.Common.{
  ℕ, ◌+◌, ◌<◌, ◌≤◌, ◌≡◌, ap, ◌∙◌, Bool, true, false, ◌||◌, ◌==◌, ltb, leb, to_nat, if◌then◌else◌,
  Bool-cases, inl, inr, List, [], ◌∷◌, arith,
}

-- Whether the loop goes on.
abbrev pub goes_on : (max_packets seen : ℕ) → Bool
goes_on max_packets seen = max_packets == 0 || ltb seen max_packets

-- The packets among the inputs.
unfoldable pub packets {ℓ} : {In : Type ℓ} → (In → Bool) → List In → ℕ
packets is_counted [] = 0
packets is_counted (input ∷ inputs) = to_nat (is_counted input) + packets is_counted inputs

module _ {In Out State : Type 0} (max_packets : ℕ) (seen : State → ℕ) (is_counted : In → Bool)
    (step : In → State → Out × State) (run : List In → State → List Out × State) where
  -- `run` is the loop over `step`, and a step counts a packet.
  pub record IsLoop : Type 0 where
    pub ends : (s : State) → (run [] s).1 ≡ s
    pub goes :
        (input : In) (inputs : List In) (s : State)
        → goes_on max_packets (seen s) ≡ true
        → (run (input ∷ inputs) s).1 ≡ (run inputs (step input s).1).1
    pub stops :
        (input : In) (inputs : List In) (s : State)
        → goes_on max_packets (seen s) ≡ false
        → (run (input ∷ inputs) s).1 ≡ s
    pub counts :
        (input : In) (s : State) → seen (step input s).1 ≡ seen s + to_nat (is_counted input)

  module _ (loop : IsLoop) where
    pub seen-run_unbounded :
        (inputs : List In) (s : State)
        → max_packets ≡ 0
        → seen (run inputs s).1 ≡ seen s + packets is_counted inputs
    unfolding packets
    seen-run_unbounded [] s e = ap seen (loop.ends s) ∙ omega arith
    seen-run_unbounded (input ∷ inputs) s e =
        ap seen (loop.goes input inputs s (ground (arith, e)))
        ∙ seen-run_unbounded inputs (step input s).1 e
        ∙ omega (arith, loop.counts input s)

    pub seen-run :
        (inputs : List In) (s : State)
        → 0 < max_packets
        → seen s ≤ max_packets
        → seen (run inputs s).1 ≡ (
            if leb max_packets (seen s + packets is_counted inputs)
            then max_packets
            else seen s + packets is_counted inputs)
    unfolding packets
    seen-run [] s some le = ap seen (loop.ends s) ∙ ground (arith, le)
    seen-run (input ∷ inputs) s some le = elim (Bool-cases (goes_on max_packets (seen s))) [
      | inl on ↦
          let t = (step input s).1 in
          let counted = loop.counts input s in
          let below : seen t ≤ max_packets = ground (arith, on, counted, some) in
          ap seen (loop.goes input inputs s on)
          ∙ seen-run inputs t some below
          ∙ ground (arith, counted)
      | inr off ↦ ap seen (loop.stops input inputs s off) ∙ ground (arith, off, le)
    ]
