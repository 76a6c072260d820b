-- ===== src/Xdp/Cpus.antt =====
-- xdp_agg/xdp_agg.c on several CPUs: netsum_xdp_aggregate cut at its accesses to the shared maps.
--
-- An element of slot_map is an address, under which its value is kept: a CPU goes on holding the
-- address when another one deletes the entry. What bpf_spin_lock protects is one step. An element
-- of job_quota_map is never deleted, so a lookup and the access through what it returned are one
-- step too, if the program does one access. slot_map is a preallocated hash map: the element of a
-- deleted entry may be given to another key at once, also while a CPU holds its address.
pub mod Locked
pub mod Invariant
pub mod Runs
pub mod Safety
pub mod Progress
pub mod Leak
pub mod Stale
use xdp_gradient_aggregation.Common.{
  ℕ, suc, ◌+◌, ◌-◌, ◌*◌, ◌^◌, ◌<◌, ◌≤◌, ◌≡◌, ◌≢◌, if◌then◌else◌, ◌⊎◌, Bool, true, false, ◌||◌, ◌==◌,
  ltb, Option, none, some, List, [], ◌∷◌, Array, update, u32, u64,
}
use xdp_gradient_aggregation.Proto.{Buf, hdr_at, bpf_ntohs}
use xdp_gradient_aggregation.Proto.Layout.{IsBytes}
use xdp_gradient_aggregation.Xdp.Maps.{MapOps, or_kept, stat_no_config, stat_fairness_quota}
use xdp_gradient_aggregation.Xdp.Frame.{gradient, parse, Config, grad_at, bitmap_bytes, retarget}
use xdp_gradient_aggregation.Xdp.Slot.{
  GradSlot, fresh_slot, Verdict, mismatch, duplicate, partial, complete, contribute, write_back,
}
use xdp_gradient_aggregation.Xdp.Program.{Key, key_of, over_quota}

-- A frame, with what the program reads of its header once.
pub record Ctx : Type 0 where
  pub frame : Buf
  pub len : ℕ

abbrev pub key : Ctx → Key
key ctx = key_of ctx.frame

abbrev pub chunk_len : Ctx → ℕ
chunk_len ctx = bpf_ntohs (hdr_at ctx.frame grad_at).chunk_len

abbrev pub worker_id : Ctx → ℕ
worker_id ctx = bpf_ntohs (hdr_at ctx.frame grad_at).worker_id

abbrev pub num_workers_hdr : Ctx → ℕ
num_workers_hdr ctx = bpf_ntohs (hdr_at ctx.frame grad_at).num_workers

-- What a CPU carries from the unlock of a slot that it has completed: the address of the slot, its
-- frame as written back, and, for the proofs alone, the frames that the slot had accepted.
pub record Closing : Type 0 where
  pub slot_key : Key
  pub slot : ℕ
  pub frame : Buf
  pub final_chunk_len : ℕ
  pub accepted : List Buf

-- Before the program has a slot: at the first lookup, at the fairness check, at the creation, and
-- at the second lookup with whether the creation was won.
pub data Search : Type 0 where
  looking checking creating : Search
  looking_again : (won : Bool) → Search

-- With a slot: in job_quota_increment at its lookup, its insertion and its second lookup; and at
-- the lock.
pub data Hold : Type 0 where
  counting inserting recounting locking : Hold

-- Where a CPU stands, with the local variables that are live there.
pub data Pc : Type 0 where
  idle : Pc
  searching : Search → Ctx → Pc
  holding : Hold → Ctx → (slot : ℕ) → Pc
  -- at the second lookup of the configuration
  completing : Closing → Pc
  -- at bpf_map_delete_elem
  deleting : Option Config → Closing → Pc
  -- in job_quota_decrement, at its lookup and at its subtraction
  releasing subtracting : Option Config → Closing → Pc
  -- after job_quota_decrement
  leaving : Option Config → Closing → Pc
  -- in bump_stat, at its lookup and at its update
  bumping setting : (stat_key : ℕ) → Pc

-- The slot whose address a CPU holds.
abbrev pub held : Pc → Option ℕ
held (holding h ctx slot) = some slot
held (completing c) = some c.slot
held (deleting cfg c) = some c.slot
held (releasing cfg c) = some c.slot
held (subtracting cfg c) = some c.slot
held (leaving cfg c) = some c.slot
held _ = none

-- The maps that the program writes.
pub record Kernel : Type 1 where
  pub slot_ops : MapOps Key ℕ
  pub quota_ops : MapOps ℕ ℕ
  pub stat_ops : MapOps ℕ ℕ

-- A frame that has left, with the frames that its slot had accepted.
pub record Emission : Type 0 where
  pub frame : Buf
  pub accepted : List Buf

-- slot_map and its elements. The proofs alone use `owner`, the key that an element was created
-- for, `log`, the frames that it has accepted, and `sent`, the frames sent on for it.
pub record Slots (M : Type 0) : Type 0 where
  pub slot_map : M
  pub cell : Array GradSlot
  pub next : ℕ
  pub owner : Array Key
  pub log : Array (List Buf)
  pub sent : Array (List Emission)

pub record Shared (M Q S : Type 0) : Type 0 where
  pub slots : Slots M
  pub job_quota_map : Q
  pub drop_stats : S

-- A frame that passes the checks of the header.
abbrev pub IsGradient : Ctx → Type 0
IsGradient ctx = IsBytes ctx.frame × (parse ctx.frame ctx.len ≡ gradient)

-- The locked section, but for the write-back.
abbrev pub locked : Ctx → GradSlot → Verdict × GradSlot
locked ctx s = contribute ctx.frame ctx.len (chunk_len ctx) (worker_id ctx) s

module _ {M : Type 0} where
  -- The element that a creation puts at an address, one that was given before or the next.
  abbrev pub allocate : Ctx → (slot : ℕ) → M → Slots M → Slots M
  allocate ctx slot slot_map sl = record {
    slot_map = slot_map;
    cell = update sl.cell slot (fresh_slot (chunk_len ctx) (num_workers_hdr ctx));
    next = if slot == sl.next then suc sl.next else sl.next;
    owner = update sl.owner slot (key ctx);
    log = update sl.log slot [];
    sent = update sl.sent slot [];
  }

  abbrev pub accept : Ctx → ℕ → Slots M → Slots M
  accept ctx slot sl = record sl {
    cell = update sl.cell slot (locked ctx (sl.cell slot)).1;
    log = update sl.log slot (ctx.frame ∷ sl.log slot);
  }

  abbrev pub closing_of : Ctx → ℕ → Slots M → Closing
  closing_of ctx slot sl =
      let s = (locked ctx (sl.cell slot)).1 in
      record {
        slot_key = key ctx;
        slot = slot;
        frame = write_back s ctx.len ctx.frame;
        final_chunk_len = s.chunk_len;
        accepted = ctx.frame ∷ sl.log slot;
      }

  abbrev pub transmit : Config → Closing → Slots M → Slots M
  transmit cfg c sl =
      let e : Emission = record {
        frame = retarget cfg c.final_chunk_len c.frame;
        accepted = c.accepted;
      } in
      record sl { sent = update sl.sent c.slot (e ∷ sl.sent c.slot) }

module _ (kernel : Kernel) where
  abbrev pub Mem : Type 0
  Mem = Shared kernel.slot_ops.Map kernel.quota_ops.Map kernel.stat_ops.Map

  -- One step of one CPU: from the memory and its place to what they are afterwards. A frame that
  -- does not pass the checks of the header has no step: it leaves the maps alone.
  pub data Move (m : Mem) : Pc → Mem → Pc → Type 0 where
    receive : {ctx : Ctx} → IsGradient ctx → Move m idle m (searching looking ctx)
    found :
        {ctx : Ctx} {slot : ℕ}
        → kernel.slot_ops.lookup m.slots.slot_map (key ctx) ≡ some slot
        → Move m (searching looking ctx) m (holding locking ctx slot)
    refused :
        {ctx : Ctx}
        → kernel.slot_ops.lookup m.slots.slot_map (key ctx) ≡ none
        → (num_workers_hdr ctx == 0 || ltb (bitmap_bytes * 8) (num_workers_hdr ctx)) ≡ true
        → Move m (searching looking ctx) m idle
    missing :
        {ctx : Ctx}
        → kernel.slot_ops.lookup m.slots.slot_map (key ctx) ≡ none
        → (num_workers_hdr ctx == 0 || ltb (bitmap_bytes * 8) (num_workers_hdr ctx)) ≡ false
        → Move m (searching looking ctx) m (searching checking ctx)
    -- the configuration is what its lookup finds at that time
    over :
        {ctx : Ctx} (precheck : Option Config)
        → over_quota kernel.quota_ops precheck (key ctx).job_id m.job_quota_map ≡ true
        → Move m (searching checking ctx) m (bumping stat_fairness_quota)
    under :
        {ctx : Ctx} (precheck : Option Config)
        → over_quota kernel.quota_ops precheck (key ctx).job_id m.job_quota_map ≡ false
        → Move m (searching checking ctx) m (searching creating ctx)
    -- the kernel gives an element that no entry has: a new one, or one whose entry was deleted
    created :
        {ctx : Ctx} {slot : ℕ} {slot_map : kernel.slot_ops.Map}
        → slot ≤ m.slots.next
        → ((k : Key) → kernel.slot_ops.lookup m.slots.slot_map k ≢ some slot)
        → kernel.slot_ops.insert m.slots.slot_map (key ctx) slot ≡ some slot_map
        → Move m
            (searching creating ctx)
            (record m { slots = allocate ctx slot slot_map m.slots })
            (searching (looking_again true) ctx)
    lost :
        {ctx : Ctx} {slot : ℕ}
        → kernel.slot_ops.insert m.slots.slot_map (key ctx) slot ≡ none
        → Move m (searching creating ctx) m (searching (looking_again false) ctx)
    full :
        {ctx : Ctx} {won : Bool}
        → kernel.slot_ops.lookup m.slots.slot_map (key ctx) ≡ none
        → Move m (searching (looking_again won) ctx) m idle
    won :
        {ctx : Ctx} {slot : ℕ}
        → kernel.slot_ops.lookup m.slots.slot_map (key ctx) ≡ some slot
        → Move m (searching (looking_again true) ctx) m (holding counting ctx slot)
    joined :
        {ctx : Ctx} {slot : ℕ}
        → kernel.slot_ops.lookup m.slots.slot_map (key ctx) ≡ some slot
        → Move m (searching (looking_again false) ctx) m (holding locking ctx slot)
    -- job_quota_increment
    count_known :
        {ctx : Ctx} {slot n : ℕ}
        → kernel.quota_ops.lookup m.job_quota_map (key ctx).job_id ≡ some n
        → Move m
            (holding counting ctx slot)
            (record m {
              job_quota_map = kernel.quota_ops.store m.job_quota_map (key ctx).job_id (u32 (n + 1));
            })
            (holding locking ctx slot)
    count_unknown :
        {ctx : Ctx} {slot : ℕ}
        → kernel.quota_ops.lookup m.job_quota_map (key ctx).job_id ≡ none
        → Move m (holding counting ctx slot) m (holding inserting ctx slot)
    count_first :
        {ctx : Ctx} {slot : ℕ} {quotas : kernel.quota_ops.Map}
        → kernel.quota_ops.insert m.job_quota_map (key ctx).job_id 1 ≡ some quotas
        → Move m
            (holding inserting ctx slot)
            (record m { job_quota_map = quotas })
            (holding locking ctx slot)
    count_lost :
        {ctx : Ctx} {slot : ℕ}
        → kernel.quota_ops.insert m.job_quota_map (key ctx).job_id 1 ≡ none
        → Move m (holding inserting ctx slot) m (holding recounting ctx slot)
    recount :
        {ctx : Ctx} {slot n : ℕ}
        → kernel.quota_ops.lookup m.job_quota_map (key ctx).job_id ≡ some n
        → Move m
            (holding recounting ctx slot)
            (record m {
              job_quota_map = kernel.quota_ops.store m.job_quota_map (key ctx).job_id (u32 (n + 1));
            })
            (holding locking ctx slot)
    uncounted :
        {ctx : Ctx} {slot : ℕ}
        → kernel.quota_ops.lookup m.job_quota_map (key ctx).job_id ≡ none
        → Move m (holding recounting ctx slot) m (holding locking ctx slot)
    -- the locked section
    rejected :
        {ctx : Ctx} {slot : ℕ}
        → ((locked ctx (m.slots.cell slot)).0 ≡ mismatch)
          ⊎ ((locked ctx (m.slots.cell slot)).0 ≡ duplicate)
        → Move m (holding locking ctx slot) m idle
    absorbed :
        {ctx : Ctx} {slot : ℕ}
        → (locked ctx (m.slots.cell slot)).0 ≡ partial
        → Move m (holding locking ctx slot) (record m { slots = accept ctx slot m.slots }) idle
    completed :
        {ctx : Ctx} {slot : ℕ}
        → (locked ctx (m.slots.cell slot)).0 ≡ complete
        → Move m
            (holding locking ctx slot)
            (record m { slots = accept ctx slot m.slots })
            (completing (closing_of ctx slot m.slots))
    -- the teardown; the configuration is what its lookup finds at that time
    configure :
        {c : Closing} (completion : Option Config) → Move m (completing c) m (deleting completion c)
    delete :
        {cfg : Option Config} {c : Closing}
        → Move m
            (deleting cfg c)
            (record m {
              slots = record m.slots {
                slot_map = kernel.slot_ops.erase m.slots.slot_map c.slot_key;
              };
            })
            (releasing cfg c)
    -- job_quota_decrement
    release_none :
        {cfg : Option Config} {c : Closing}
        → kernel.quota_ops.lookup m.job_quota_map c.slot_key.job_id ≡ none
        → Move m (releasing cfg c) m (leaving cfg c)
    release_zero :
        {cfg : Option Config} {c : Closing}
        → kernel.quota_ops.lookup m.job_quota_map c.slot_key.job_id ≡ some 0
        → Move m (releasing cfg c) m (leaving cfg c)
    release :
        {cfg : Option Config} {c : Closing} {n : ℕ}
        → kernel.quota_ops.lookup m.job_quota_map c.slot_key.job_id ≡ some n
        → 0 < n
        → Move m (releasing cfg c) m (subtracting cfg c)
    subtract :
        {cfg : Option Config} {c : Closing} {n : ℕ}
        → kernel.quota_ops.lookup m.job_quota_map c.slot_key.job_id ≡ some n
        → Move m
            (subtracting cfg c)
            (record m {
              job_quota_map =
                  kernel.quota_ops.store m.job_quota_map c.slot_key.job_id (u32 (n + (2 ^ 32 - 1)));
            })
            (leaving cfg c)
    discard : {c : Closing} → Move m (leaving none c) m (bumping stat_no_config)
    transmitted :
        {cfg : Config} {c : Closing}
        → Move m (leaving (some cfg) c) (record m { slots = transmit cfg c m.slots }) idle
    -- bump_stat
    bump :
        {k n : ℕ}
        → kernel.stat_ops.lookup m.drop_stats k ≡ some n
        → Move m
            (bumping k)
            (record m { drop_stats = kernel.stat_ops.store m.drop_stats k (u64 (n + 1)) })
            idle
    bump_new :
        {k : ℕ} → kernel.stat_ops.lookup m.drop_stats k ≡ none → Move m (bumping k) m (setting k)
    -- BPF_ANY replaces what another CPU has put there
    set_one :
        {k n : ℕ}
        → kernel.stat_ops.lookup m.drop_stats k ≡ some n
        → Move m (setting k) (record m { drop_stats = kernel.stat_ops.store m.drop_stats k 1 }) idle
    set_new :
        {k : ℕ}
        → kernel.stat_ops.lookup m.drop_stats k ≡ none
        → Move m
            (setting k)
            (record m {
              drop_stats = or_kept m.drop_stats (kernel.stat_ops.insert m.drop_stats k 1);
            })
            idle

  -- The element that a move takes for a new entry.
  abbrev pub taken : {m m' : Mem} {p p' : Pc} → Move m p m' p' → Option ℕ
  taken (created {slot = slot} lt free e) = some slot
  taken _ = none

  pub record System : Type 0 where
    pub mem : Mem
    pub pc : Array Pc

  -- Any CPU may move.
  pub data Step (s : System) : System → Type 0 where
    pick :
        (cpu : ℕ) {m : Mem} {p p' : Pc}
        → s.pc cpu ≡ p
        → Move s.mem p m p'
        → Step s (record { mem = m; pc = update s.pc cpu p' })

  pub data Reach (s : System) : System → Type 0 where
    here : Reach s s
    next : {t u : System} → Reach s t → Step t u → Reach s u

  -- A step that gives away no element whose address a CPU holds.
  abbrev pub SparesHeld : {s t : System} → Step s t → Type 0
  SparesHeld {s} (pick cpu at mv) = (j slot : ℕ) → held (s.pc j) ≡ some slot → taken mv ≢ some slot

  -- A run in which no element is given to another key while a CPU holds its address.
  abbrev pub IsSparing : {s t : System} → Reach s t → Type 0
  IsSparing here = Unit {0}
  IsSparing (next r st) = IsSparing r × SparesHeld st
