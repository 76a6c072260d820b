-- ===== src/Xdp/Cpus/Invariant/Closed.antt =====
-- xdp_agg/xdp_agg.c on several CPUs: the end of a slot, its deletion and the frame sent on for it.
use xdp_gradient_aggregation.Common.{
  ℕ, ◌≡◌, ◌≢◌, refl, sym, ap, ◌∙◌, Bool-cases, inl, inr, ◌==◌, ==_refl, false, Option, some, Array,
  update, length, arith,
}
use native.Mathlib.Decide.{ℕ_discrete}
use xdp_gradient_aggregation.Xdp.Maps.{MapOps}
use xdp_gradient_aggregation.Xdp.Frame.{Config}
use xdp_gradient_aggregation.Xdp.Program.{Key}
use xdp_gradient_aggregation.Xdp.Cpus.{
  Closing, Pc, idle, deleting, releasing, leaving, Slots, transmit,
}
use xdp_gradient_aggregation.Xdp.Cpus.Invariant.{closes, IsAt, Completed, SlotInv, Inv}
use xdp_gradient_aggregation.Xdp.Cpus.Invariant.Kept.{
  Later, cpus-Later, unclosed, unclosed-update, unique-kept,
}

module _ (ops : MapOps Key ℕ) where
  open ops use {Map, lookup}

  module _ (c : Closing) (sl : Slots Map) (done : Completed ops sl c)
      (entry : lookup sl.slot_map c.slot_key ≡ some c.slot) where
    abbrev erased : Slots Map
    erased = record sl { slot_map = ops.erase sl.slot_map c.slot_key }

    -- An entry of another element has another key.
    other_key : (k : Key) (p : ℕ) → p ≢ c.slot → lookup sl.slot_map k ≡ some p → k ≢ c.slot_key
    other_key k p ne e same =
        ne (ground (arith, e, ap (λ (q : Key). lookup sl.slot_map q) same, entry))

    stays :
        (k : Key) (p : ℕ)
        → p ≢ c.slot
        → lookup sl.slot_map k ≡ some p
        → lookup erased.slot_map k ≡ some p
    stays k p ne e = ops.lookup-erase_ne sl.slot_map c.slot_key k (other_key k p ne e) ∙ e

    erased-Later : Later ops sl erased
    erased-Later = record {
      next = omega arith;
      owner = λ p lt. refl;
      expected = λ p lt. refl;
      chunk_len = λ p lt. refl;
      log = λ p lt. omega arith;
    }

    erased-mapped :
        ((k : Key) (p : ℕ) → lookup sl.slot_map k ≡ some p → IsAt ops sl k p)
        → (k : Key) (p : ℕ) → lookup erased.slot_map k ≡ some p
        → IsAt ops erased k p
    erased-mapped mapped k p e =
        let other : k ≢ c.slot_key = λ same. ground (
          arith,
          e,
          ap (λ (q : Key). lookup erased.slot_map q) same,
          ops.lookup-erase sl.slot_map c.slot_key,
        ) in
        let at = mapped k p (sym (ops.lookup-erase_ne sl.slot_map c.slot_key k other) ∙ e) in
        record { allocated = at.allocated; owned = at.owned }

    pub deleted-Inv :
        (pc : Array Pc) (cpu : ℕ) (cfg : Option Config)
        → pc cpu ≡ deleting cfg c
        → Inv ops sl pc
        → Inv ops erased (update pc cpu (releasing cfg c))
    deleted-Inv pc cpu cfg at inv =
        let p = releasing cfg c in
        let sub : (s : ℕ) → closes p ≡ some s → closes (pc cpu) ≡ some s = λ s e. rw at e in
        record {
          mapped = erased-mapped inv.mapped;
          slots = λ q lt.
              let s = inv.slots q lt in
              record {
                holds = s.holds;
                keys = s.keys;
                live = λ few.
                    stays (sl.owner q) q (λ same. omega (arith, rw same at few, done.full))
                      (s.live few);
                exact = s.exact;
                once = s.once;
                spent = λ pos.
                    let (full, clear) = s.spent pos in
                    (full, unclosed-update ops pc cpu p sub q clear);
              };
          cpus =
              cpus-Later ops pc cpu p erased-Later
                (λ j k slot ne cj e.
                  stays k slot (λ same. ne (inv.unique j cpu c.slot (rw same at cj) (ap closes at)))
                    e)
                (record {
                  place = record { allocated = done.place.allocated; owned = done.place.owned };
                  full = done.full;
                  exact = done.exact;
                })
                inv.cpus;
          unique = unique-kept ops pc cpu p sub inv.unique;
        }

  module _ (c : Closing) (sl : Slots Map) (cfg : Config) (done : Completed ops sl c) (pc : Array Pc)
      (cpu : ℕ) (at : pc cpu ≡ leaving (some cfg) c) (inv : Inv ops sl pc) where
    abbrev sent' : Slots Map
    sent' = transmit cfg c sl

    abbrev pc' : Array Pc
    pc' = update pc cpu idle

    alone : (j : ℕ) → closes (pc' j) ≢ some c.slot
    alone j e = elim (Bool-cases (j == cpu)) [
      | inl here ↦ let e' = (rw (update, here) at e) in absurd (ground (arith, e'))
      | inr apart ↦
          let same = inv.unique j cpu c.slot (rw (update, apart) at e) (ap closes at) in
          ground (arith, apart, same)
    ]

    slot-sent : SlotInv ops sl pc c.slot → SlotInv ops sent' pc' c.slot
    slot-sent s =
        let self = ==_refl c.slot in
        let unsent : length (sl.sent c.slot) ≡ 0 = elim (ℕ_discrete (length (sl.sent c.slot)) 0) [
          | yes none_sent ↦ none_sent
          | no some_sent ↦ absurd ((s.spent (omega arith)).1 cpu (ap closes at))
        ] in
        record {
          holds = s.holds;
          keys = s.keys;
          live = s.live;
          exact = rw (update, self) (rw done.place.owned (done.exact cfg), s.exact);
          once = rw (update, self) (omega (arith, unsent));
          spent = λ pos. (done.full, alone);
        }

    slot-other : (q : ℕ) → (q == c.slot) ≡ false → SlotInv ops sl pc q → SlotInv ops sent' pc' q
    slot-other q apart s = record {
      holds = s.holds;
      keys = s.keys;
      live = s.live;
      exact = rw (update, apart) s.exact;
      once = rw (update, apart) s.once;
      spent =
          rw (update, apart)
            (λ pos.
              let (full, clear) = s.spent pos in
              (full, unclosed ops pc cpu idle q (λ e. absurd (ground (arith, e))) clear));
    }

    pub sent-Inv : Inv ops sent' pc'
    sent-Inv = record {
      mapped =
          λ k p e. let a = inv.mapped k p e in record { allocated = a.allocated; owned = a.owned };
      slots = λ q lt. elim (Bool-cases (q == c.slot)) [
        | inl here ↦
            let same : q ≡ c.slot = ground arith in
            rw same (slot-sent (inv.slots c.slot done.place.allocated))
        | inr apart ↦ slot-other q apart (inv.slots q lt)
      ];
      cpus =
          cpus-Later ops pc cpu idle
            (record {
              next = omega arith;
              owner = λ q lt. refl;
              expected = λ q lt. refl;
              chunk_len = λ q lt. refl;
              log = λ q lt. omega arith;
            })
            (λ j k slot ne cj e. e) tt inv.cpus;
      unique = unique-kept ops pc cpu idle (λ s e. absurd (ground (arith, e))) inv.unique;
    }
