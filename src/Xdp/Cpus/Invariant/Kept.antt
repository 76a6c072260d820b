-- ===== src/Xdp/Cpus/Invariant/Kept.antt =====
-- xdp_agg/xdp_agg.c on several CPUs: moves that leave the slots alone, and what other CPUs see.
use xdp_gradient_aggregation.Common.{
  ◌⊎◌, ℕ, ◌<◌, ◌≤◌, ◌≡◌, ◌≢◌, refl, sym, ◌∙◌, Bool-cases, inl, inr, ◌==◌, some, Array, update,
  length, arith,
}
use xdp_gradient_aggregation.Xdp.Maps.{MapOps}
use xdp_gradient_aggregation.Xdp.Program.{Key}
use xdp_gradient_aggregation.Xdp.Cpus.{
  Closing, Pc, idle, searching, looking, checking, creating, looking_again, holding, completing,
  deleting, releasing, subtracting, leaving, bumping, setting, held, Slots,
}
use xdp_gradient_aggregation.Xdp.Cpus.Invariant.{closes, IsAt, Completed, PcInv, SlotInv, Inv}

module _ (ops : MapOps Key ℕ) where
  open ops use {Map, lookup}

  -- Elements stay, with the key, the fan-in and the length, and their logs only grow.
  pub record Later (sl sl' : Slots Map) : Type 0 where
    pub next : sl.next ≤ sl'.next
    pub owner : (p : ℕ) → p < sl.next → sl'.owner p ≡ sl.owner p
    pub expected :
        (p : ℕ) → p < sl.next → (sl'.cell p).num_workers_expected ≡ (sl.cell p).num_workers_expected
    pub chunk_len : (p : ℕ) → p < sl.next → (sl'.cell p).chunk_len ≡ (sl.cell p).chunk_len
    pub log : (p : ℕ) → p < sl.next → length (sl.log p) ≤ length (sl'.log p)

  -- The same of one element.
  abbrev pub LaterAt : Slots Map → Slots Map → ℕ → Type 0
  LaterAt sl sl' p =
      p < sl.next
      → (p < sl'.next)
        × (sl'.owner p ≡ sl.owner p)
        × ((sl'.cell p).num_workers_expected ≡ (sl.cell p).num_workers_expected)
        × ((sl'.cell p).chunk_len ≡ (sl.cell p).chunk_len)
        × (length (sl.log p) ≤ length (sl'.log p))

  pub Later-LaterAt : {sl sl' : Slots Map} → Later sl sl' → (p : ℕ) → LaterAt sl sl' p
  Later-LaterAt later p lt = (
    omega (arith, lt, later.next),
    later.owner p lt,
    later.expected p lt,
    later.chunk_len p lt,
    later.log p lt,
  )

  pub IsAt-Later :
      {sl sl' : Slots Map} → Later sl sl' → {k : Key} {p : ℕ} → IsAt ops sl k p → IsAt ops sl' k p
  IsAt-Later later {k} {p} at = record {
    allocated = omega (arith, at.allocated, later.next);
    owned = later.owner p at.allocated ∙ at.owned;
  }

  module _ (sl sl' : Slots Map) where
    IsAt-LaterAt : {k : Key} {p : ℕ} → LaterAt sl sl' p → IsAt ops sl k p → IsAt ops sl' k p
    IsAt-LaterAt {k} {p} later at =
        let (lt, owner, expected, chunk_len, log) = later at.allocated in
        record { allocated = lt; owned = owner ∙ at.owned }

    Completed-Later :
        {c : Closing} → LaterAt sl sl' c.slot → Completed ops sl c → Completed ops sl' c
    Completed-Later {c} later d =
        let (lt, owner, expected, chunk_len, log) = later d.place.allocated in
        record {
          place = IsAt-LaterAt later d.place;
          full = omega (arith, d.full, expected, log);
          exact = λ cfg. rw (expected, chunk_len) (d.exact cfg);
        }

    -- A CPU that does not move, where the entry of the slot that it has completed stays.
    pub PcInv-Later :
        (p : Pc)
        → ((slot : ℕ) → held p ≡ some slot → LaterAt sl sl' slot)
        → ((k : Key) (slot : ℕ)
            → closes p ≡ some slot
            → lookup sl.slot_map k ≡ some slot
            → lookup sl'.slot_map k ≡ some slot)
        → PcInv ops sl p
        → PcInv ops sl' p
    PcInv-Later idle later kept h = tt
    PcInv-Later (bumping k) later kept h = tt
    PcInv-Later (setting k) later kept h = tt
    PcInv-Later (searching looking ctx) later kept h = h
    PcInv-Later (searching checking ctx) later kept h = h
    PcInv-Later (searching creating ctx) later kept h = h
    PcInv-Later (searching (looking_again won) ctx) later kept h = h
    PcInv-Later (holding s ctx slot) later kept h = (h.0, IsAt-LaterAt (later slot refl) h.1)
    PcInv-Later (completing c) later kept h =
        (Completed-Later (later c.slot refl) h.0, kept c.slot_key c.slot refl h.1)
    PcInv-Later (deleting cfg c) later kept h =
        (Completed-Later (later c.slot refl) h.0, kept c.slot_key c.slot refl h.1)
    PcInv-Later (releasing cfg c) later kept h = Completed-Later (later c.slot refl) h
    PcInv-Later (subtracting cfg c) later kept h = Completed-Later (later c.slot refl) h
    PcInv-Later (leaving cfg c) later kept h = Completed-Later (later c.slot refl) h

  -- Every CPU, where one has moved.
  pub cpus-LaterAt :
      (sl sl' : Slots Map) (pc : Array Pc) (cpu : ℕ) (p : Pc)
      → ((j slot : ℕ) → held (pc j) ≡ some slot → LaterAt sl sl' slot)
      → ((j : ℕ) (k : Key) (slot : ℕ)
          → j ≢ cpu
          → closes (pc j) ≡ some slot
          → lookup sl.slot_map k ≡ some slot
          → lookup sl'.slot_map k ≡ some slot)
      → PcInv ops sl' p
      → ((j : ℕ) → PcInv ops sl (pc j))
      → (j : ℕ) → PcInv ops sl' (update pc cpu p j)
  cpus-LaterAt sl sl' pc cpu p later kept moved all j = elim (Bool-cases (j == cpu)) [
    | inl here ↦ rw (update, here) moved
    | inr apart ↦
        rw (update, apart)
          (PcInv-Later sl sl' (pc j) (later j) (λ k slot. kept j k slot (ground arith)) (all j))
  ]

  pub cpus-Later :
      {sl sl' : Slots Map} (pc : Array Pc) (cpu : ℕ) (p : Pc)
      → Later sl sl'
      → ((j : ℕ) (k : Key) (slot : ℕ)
          → j ≢ cpu
          → closes (pc j) ≡ some slot
          → lookup sl.slot_map k ≡ some slot
          → lookup sl'.slot_map k ≡ some slot)
      → PcInv ops sl' p
      → ((j : ℕ) → PcInv ops sl (pc j))
      → (j : ℕ) → PcInv ops sl' (update pc cpu p j)
  cpus-Later {sl} {sl'} pc cpu p later =
      cpus-LaterAt sl sl' pc cpu p (λ j slot e. Later-LaterAt later slot)

  -- A CPU that closes a slot after a move has done so before, or it is the mover.
  pub closes-update :
      (pc : Array Pc) (cpu : ℕ) (p : Pc) (j slot : ℕ)
      → closes (update pc cpu p j) ≡ some slot
      → (closes (pc j) ≡ some slot) ⊎ ((j ≡ cpu) × (closes p ≡ some slot))
  closes-update pc cpu p j slot e = elim (Bool-cases (j == cpu)) [
    | inl here ↦ inr (ground arith, rw (update, here) at e)
    | inr apart ↦ inl (rw (update, apart) at e)
  ]

  -- The mover closes no slot that another CPU closes.
  pub unique-update :
      (pc : Array Pc) (cpu : ℕ) (p : Pc)
      → ((j slot : ℕ) → closes p ≡ some slot → closes (pc j) ≡ some slot → j ≡ cpu)
      → ((i j slot : ℕ) → closes (pc i) ≡ some slot → closes (pc j) ≡ some slot → i ≡ j)
      → (i j slot : ℕ) → closes (update pc cpu p i) ≡ some slot
      → closes (update pc cpu p j) ≡ some slot
      → i ≡ j
  unique-update pc cpu p alone unique i j slot ei ej = elim (closes-update pc cpu p i slot ei) [
    | inl oi ↦ elim (closes-update pc cpu p j slot ej) [
      | inl oj ↦ unique i j slot oi oj
      | inr (hj, cj) ↦ alone i slot cj oi ∙ sym hj
    ]
    | inr (hi, ci) ↦ elim (closes-update pc cpu p j slot ej) [
      | inl oj ↦ hi ∙ sym (alone j slot ci oj)
      | inr (hj, cj) ↦ hi ∙ sym hj
    ]
  ]

  Completed-at :
      (sl : Slots Map) (c : Closing) (slot : ℕ)
      → Completed ops sl c
      → some c.slot ≡ some slot
      → (slot < sl.next) × ((sl.cell slot).num_workers_expected ≤ length (sl.log slot))
  Completed-at sl c slot d e =
      let same : c.slot ≡ slot = ground (arith, e) in rw (← same) (d.place.allocated, d.full)

  -- A CPU that closes a slot has completed it.
  pub closes-Completed :
      (sl : Slots Map) (p : Pc) (slot : ℕ)
      → PcInv ops sl p
      → closes p ≡ some slot
      → (slot < sl.next) × ((sl.cell slot).num_workers_expected ≤ length (sl.log slot))
  closes-Completed sl (completing c) slot h e = Completed-at sl c slot h.0 e
  closes-Completed sl (deleting cfg c) slot h e = Completed-at sl c slot h.0 e
  closes-Completed sl (releasing cfg c) slot h e = Completed-at sl c slot h e
  closes-Completed sl (subtracting cfg c) slot h e = Completed-at sl c slot h e
  closes-Completed sl (leaving cfg c) slot h e = Completed-at sl c slot h e
  closes-Completed sl _ slot h e = absurd (ground (arith, e))

  -- A CPU holds the address of the slot that it closes.
  pub closes-held : (p : Pc) (slot : ℕ) → closes p ≡ some slot → held p ≡ some slot
  closes-held (completing c) slot e = e
  closes-held (deleting cfg c) slot e = e
  closes-held (releasing cfg c) slot e = e
  closes-held (subtracting cfg c) slot e = e
  closes-held (leaving cfg c) slot e = e
  closes-held _ slot e = absurd (ground (arith, e))

  -- A slot that neither the mover nor any CPU closes.
  pub unclosed :
      (pc : Array Pc) (cpu : ℕ) (p : Pc) (slot : ℕ)
      → closes p ≢ some slot
      → ((j : ℕ) → closes (pc j) ≢ some slot)
      → (j : ℕ) → closes (update pc cpu p j) ≢ some slot
  unclosed pc cpu p slot new none_closes j e = elim (closes-update pc cpu p j slot e) [
    | inl o ↦ none_closes j o
    | inr (h, c) ↦ new c
  ]

  -- A move that leaves the slots alone.
  module _ (pc : Array Pc) (cpu : ℕ) (p : Pc)
      (sub : (slot : ℕ) → closes p ≡ some slot → closes (pc cpu) ≡ some slot) where
    pub unclosed-update :
        (slot : ℕ)
        → ((j : ℕ) → closes (pc j) ≢ some slot)
        → (j : ℕ) → closes (update pc cpu p j) ≢ some slot
    unclosed-update slot none_closes =
        unclosed pc cpu p slot (λ c. none_closes cpu (sub slot c)) none_closes

    pub unique-kept :
        ((i j slot : ℕ) → closes (pc i) ≡ some slot → closes (pc j) ≡ some slot → i ≡ j)
        → (i j slot : ℕ) → closes (update pc cpu p i) ≡ some slot
        → closes (update pc cpu p j) ≡ some slot
        → i ≡ j
    unique-kept unique =
        unique-update pc cpu p (λ j slot c o. unique j cpu slot o (sub slot c)) unique

    pub SlotInv-moved :
        {sl : Slots Map} {slot : ℕ} → SlotInv ops sl pc slot → SlotInv ops sl (update pc cpu p) slot
    SlotInv-moved {sl} {slot} s = record {
      holds = s.holds;
      keys = s.keys;
      live = s.live;
      exact = s.exact;
      once = s.once;
      spent = λ pos. let (full, clear) = s.spent pos in (full, unclosed-update slot clear);
    }

    pub quiet-Inv : {sl : Slots Map} → PcInv ops sl p → Inv ops sl pc → Inv ops sl (update pc cpu p)
    quiet-Inv moved inv = record {
      mapped = inv.mapped;
      slots = λ slot lt. SlotInv-moved (inv.slots slot lt);
      cpus =
          cpus-Later pc cpu p
            (record {
              next = omega arith;
              owner = λ q lt. refl;
              expected = λ q lt. refl;
              chunk_len = λ q lt. refl;
              log = λ q lt. omega arith;
            })
            (λ j k slot ne c e. e) moved inv.cpus;
      unique = unique-kept inv.unique;
    }
