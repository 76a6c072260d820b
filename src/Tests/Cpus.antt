-- ===== src/Tests/Cpus.antt =====
-- The theorems on xdp_agg/xdp_agg.c on several CPUs at concrete runs, with the maps of
-- Xdp/Maps/List.antt.
use xdp_gradient_aggregation.Common.{
  ℕ, ◌+◌, ◌<◌, ◌≡◌, ◌≢◌, refl, ◌==◌, if◌then◌else◌, Array, none, some, List, [], ◌∷◌, arith,
}
use xdp_gradient_aggregation.Proto.{Buf, hdr_at, load16, load32, bpf_ntohs, bpf_ntohl}
use xdp_gradient_aggregation.Proto.Layout.{IsBytes}
use xdp_gradient_aggregation.Xdp.Maps.List.{list_maps, find, add}
use xdp_gradient_aggregation.Xdp.Frame.{parse}
use xdp_gradient_aggregation.Xdp.Slot.{fresh_slot}
use xdp_gradient_aggregation.Xdp.Program.{Key}
use xdp_gradient_aggregation.Xdp.Cpus.{
  Ctx, key, num_workers_hdr, Pc, held, IsSparing, idle, holding, counting, deleting, Kernel, Slots,
  System, Reach, IsGradient, allocate, accept, closing_of, transmit,
}
use xdp_gradient_aggregation.Xdp.Cpus.Runs.{Runs, creates}
use xdp_gradient_aggregation.Xdp.Cpus.Leak.{reaches_delete, Leaks, leaves_uncounted, frame-Leaks}
use xdp_gradient_aggregation.Tests.Xdp.{same_key, same_key-eq, same_key_refl, quotas, stats, config}

abbrev kernel : Kernel
kernel = record {
  slot_ops = list_maps same_key same_key-eq same_key_refl 65536;
  quota_ops = quotas;
  stat_ops = stats;
}

-- A frame of one value, from worker `w` of `n`.
unfoldable single : (n w : ℕ) → Buf
single n w i =
    if i == 12
    then 8
    else if i == 14
    then 0x45
    else if i == 23
    then 17
    else if i == 36
    then 0x26
    else if i == 37
    then 0x94
    else if i == 55
    then w
    else if i == 57
    then n
    else if i == 59
    then 1
    else if i == 65
    then 40 + w
    else 0

abbrev ctx : (n w : ℕ) → Ctx
ctx n w = record { frame = single n w; len = 66 }

single-IsBytes : (n w : ℕ) → n < 200 → w < 200 → IsBytes (single n w)
unfolding single
single-IsBytes n w hn hw i = ground arith

sole-IsGradient : IsGradient (ctx 1 0)
unfolding single parse hdr_at load16 load32 bpf_ntohs bpf_ntohl
sole-IsGradient = (single-IsBytes 1 0 (omega arith) (omega arith), refl)

pair-IsGradient : IsGradient (ctx 2 0) × IsGradient (ctx 2 1)
unfolding single parse hdr_at load16 load32 bpf_ntohs bpf_ntohl
pair-IsGradient = (
  (single-IsBytes 2 0 (omega arith) (omega arith), refl),
  (single-IsBytes 2 1 (omega arith) (omega arith), refl),
)

abbrev boot : System kernel
boot = record {
  mem = record {
    slots = record {
      slot_map = [];
      cell = λ p. fresh_slot 0 0;
      next = 0;
      owner = λ p. record { job_id = 0; round = 0; chunk_id = 0 };
      log = λ p. [];
      sent = λ p. [];
    };
    job_quota_map = [];
    drop_stats = [];
  };
  pc = λ cpu. idle;
}

unmapped : (k : Key) → kernel.slot_ops.lookup boot.mem.slots.slot_map k ≢ some 0
unfolding find
unmapped k e = absurd (ground (arith, e))

unheld : (j : ℕ) → held (boot.pc j) ≢ some 0
unheld j e = absurd (ground (arith, e))

-- CPU 0 is about to count the slot that it has created, for two workers.
abbrev table : List (Key × ℕ)
table = (key (ctx 2 0), 0) ∷ []

counting_pair :
    Runs kernel boot 0
      (record boot.mem { slots = allocate (ctx 2 0) 0 table boot.mem.slots })
      (holding counting (ctx 2 0) 0)
unfolding find add single hdr_at load16 load32 bpf_ntohs bpf_ntohl
counting_pair =
    creates kernel boot 0 (ctx 2 0) config 0 table refl (omega arith) unmapped unheld
      pair-IsGradient.0 refl refl refl refl

abbrev waiting : System kernel
waiting = record {
  mem = record boot.mem { slots = allocate (ctx 2 0) 0 table boot.mem.slots };
  pc = counting_pair.pc;
}

-- A slot for one worker, and a frame of it that comes twice.
abbrev sole_table : List (Key × ℕ)
sole_table = (key (ctx 1 0), 0) ∷ []

abbrev sole_quotas : List (ℕ × ℕ)
sole_quotas = ((key (ctx 1 0)).job_id, 1) ∷ []

sole_fan_in : num_workers_hdr (ctx 1 0) ≡ 1
unfolding single hdr_at load16 bpf_ntohs
sole_fan_in = refl

two_cpus : ◌≢◌ {A = ℕ} 1 0
two_cpus = omega arith

sole_absent : kernel.slot_ops.lookup [] (key (ctx 1 0)) ≡ none
unfolding find
sole_absent = refl

sole_unknown : kernel.quota_ops.lookup [] (key (ctx 1 0)).job_id ≡ none
unfolding find
sole_unknown = refl

sole_slot_room : kernel.slot_ops.insert [] (key (ctx 1 0)) 0 ≡ some sole_table
unfolding add
sole_slot_room = refl

sole_quota_room : kernel.quota_ops.insert [] (key (ctx 1 0)).job_id 1 ≡ some sole_quotas
unfolding add
sole_quota_room = refl

frame-Leaks_example : Leaks kernel boot (key (ctx 1 0))
frame-Leaks_example =
    frame-Leaks kernel boot 0 1 (ctx 1 0) config 0 sole_table sole_quotas two_cpus refl refl
      (omega arith) unmapped unheld sole-IsGradient sole_fan_in sole_absent sole_unknown
      sole_slot_room sole_quota_room

abbrev opened : Slots kernel.slot_ops.Map
opened = allocate (ctx 1 0) 0 sole_table boot.mem.slots

-- CPU 0 is about to count the slot, and CPU 1 has deleted it and sent its frame on.
abbrev closed : Slots kernel.slot_ops.Map
closed = transmit config (closing_of (ctx 1 0) 0 opened) (record (accept (ctx 1 0) 0 opened) {
  slot_map = kernel.slot_ops.erase sole_table (key (ctx 1 0));
})

sole_closed :
    (pc : Array Pc) × (r : Reach kernel boot
      (record { mem = record boot.mem { slots = closed }; pc = pc }))
    × IsSparing kernel r
sole_closed =
    leaves_uncounted kernel boot 0 1 (ctx 1 0) config 0 sole_table sole_quotas two_cpus refl refl
      (omega arith) unmapped unheld sole-IsGradient sole_fan_in sole_absent sole_unknown
      sole_slot_room sole_quota_room

abbrev sent_on : System kernel
sent_on = record { mem = record boot.mem { slots = closed }; pc = sole_closed.0 }

-- CPU 1 has completed the slot of one worker, and is about to delete it.
sole_delete :
    (pc : Array Pc) × (r : Reach kernel boot
      (record { mem = record boot.mem { slots = accept (ctx 1 0) 0 opened }; pc = pc }))
    × IsSparing kernel r
    × (pc 1 ≡ deleting (some config) (closing_of (ctx 1 0) 0 opened))
sole_delete =
    reaches_delete kernel boot 0 1 (ctx 1 0) config 0 sole_table sole_quotas two_cpus refl refl
      (omega arith) unmapped unheld sole-IsGradient sole_fan_in sole_absent sole_unknown
      sole_slot_room sole_quota_room

abbrev at_delete : System kernel
at_delete = record {
  mem = record boot.mem { slots = accept (ctx 1 0) 0 opened };
  pc = sole_delete.0;
}

-- A frame of the next round, from worker 1 of 3.
unfoldable later : Buf
unfolding single
later i = if i == 49 then 1 else single 3 1 i

abbrev later_ctx : Ctx
later_ctx = record { frame = later; len = 66 }

-- CPU 0 is about to count the slot of one worker.
counting_sole :
    Runs kernel boot 0 (record boot.mem { slots = opened }) (holding counting (ctx 1 0) 0)
counting_sole =
    creates kernel boot 0 (ctx 1 0) config 0 sole_table refl (omega arith) unmapped unheld
      sole-IsGradient (ground (arith, sole_fan_in)) sole_absent sole_unknown sole_slot_room

abbrev at_count : System kernel
at_count = record { mem = record boot.mem { slots = opened }; pc = counting_sole.pc }
