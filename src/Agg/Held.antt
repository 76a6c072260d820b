-- ===== src/Agg/Held.antt =====
-- How many entries of the slot table of userspace_agg/agg.c a job holds.
use xdp_gradient_aggregation.Common.{
  ℕ, ◌+◌, ◌<◌, ◌≤◌, ◌≡◌, refl, Bool, true, false, ◌&&◌, ◌==◌, to_nat, Array, update, count,
  count-change, count_zero, count_pos, count-le, arith,
}
use xdp_gradient_aggregation.Agg.{Slot, zero_slot, slot_capacity}

abbrev pub holds : ℕ → Slot → Bool
holds id s = s.in_use && s.job_id == id

-- Slots in use that belong to the job.
pub held : Array Slot → ℕ → ℕ
held slots id = count slot_capacity (λ i. holds id (slots i))

-- A write to one slot moves the number of its job before and of its job after.
pub held-update :
    (slots : Array Slot) (i : ℕ) (s : Slot) (id : ℕ)
    → i < slot_capacity
    → held (update slots i s) id + to_nat (holds id (slots i)) ≡ held slots id + to_nat (holds id s)
unfolding held
held-update slots i s id lt =
    let moved =
      count-change slot_capacity (λ j. holds id (slots j)) (λ j. holds id (update slots i s j)) i lt
        (λ j ne. rw ne) in
    ground (arith, moved)

pub held-le : (slots : Array Slot) (id : ℕ) → held slots id ≤ slot_capacity
unfolding held
held-le slots id = count-le slot_capacity (λ i. holds id (slots i))

-- A free entry that is filled for job `id` counts for that job alone.
pub held-fill :
    (slots : Array Slot) (i : ℕ) (s : Slot) (id : ℕ)
    → i < slot_capacity
    → (slots i).in_use ≡ false
    → s.in_use ≡ true
    → held (update slots i s) id ≡ held slots id + to_nat (s.job_id == id)
held-fill slots i s id lt free used = ground (arith, held-update slots i s id lt)

-- An entry in use that is freed counts for its job no more.
pub held-free :
    (slots : Array Slot) (i : ℕ) (s : Slot) (id : ℕ)
    → i < slot_capacity
    → (slots i).in_use ≡ true
    → s.in_use ≡ false
    → held (update slots i s) id + to_nat ((slots i).job_id == id) ≡ held slots id
held-free slots i s id lt used free = ground (arith, held-update slots i s id lt)

-- A write that keeps the use and the job of a slot changes no count.
pub held-keep :
    (slots : Array Slot) (i : ℕ) (s : Slot) (id : ℕ)
    → i < slot_capacity
    → s.in_use ≡ (slots i).in_use
    → s.job_id ≡ (slots i).job_id
    → held (update slots i s) id ≡ held slots id
held-keep slots i s id lt used same = ground (arith, held-update slots i s id lt)

pub held_pos :
    (slots : Array Slot) (i : ℕ)
    → i < slot_capacity
    → (slots i).in_use ≡ true
    → 0 < held slots (slots i).job_id
unfolding held
held_pos slots i lt used =
    count_pos slot_capacity (λ j. holds (slots i).job_id (slots j)) i lt (ground arith)

pub held-empty : (id : ℕ) → held (λ i. zero_slot) id ≡ 0
unfolding held
held-empty id = count_zero slot_capacity (λ j. holds id zero_slot) (λ i lt. refl)
