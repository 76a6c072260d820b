-- ===== src/Xdp/Slot.antt =====
-- xdp_agg/xdp_agg.c: `struct grad_slot` and what is done to it under its lock.
pub mod Bitmap
pub mod Refine
pub mod Round
pub mod History
use xdp_gradient_aggregation.Common.{
  ℕ, zero, suc, ◌+◌, ◌*◌, ◌/◌, ◌%◌, ◌^◌, Bool, true, false, not, ◌==◌, ltb, leb, if◌then◌else◌,
  Array, update, bit_and, bit_or, u8, u16, u32, ◌<<<◌,
}
use xdp_gradient_aggregation.Proto.{Buf, store32, value_at, bpf_ntohl, max_chunk_len}
use xdp_gradient_aggregation.Xdp.Frame.{values_at}

-- The lock is not kept: one packet is handled after another.
pub record GradSlot : Type 0 where
  pub sum : Array ℕ
  pub chunk_len : ℕ
  pub num_workers_expected : ℕ
  pub contributions_received : ℕ
  pub seen_worker : Array ℕ

abbrev pub fresh_slot : (chunk_len num_workers : ℕ) → GradSlot
fresh_slot chunk_len num_workers = record {
  sum = λ i. 0;
  chunk_len = chunk_len;
  num_workers_expected = num_workers;
  contributions_received = 0;
  seen_worker = λ b. 0;
}

-- `(uint8_t)(1 << (worker_id % 8))`
abbrev pub worker_bit : ℕ → ℕ
worker_bit worker_id = u8 (1 <<< (worker_id % 8))

-- `byte & bit` as a condition.
unfoldable pub has_seen : Array ℕ → ℕ → Bool
has_seen seen worker_id = not (bit_and (seen (worker_id / 8)) (worker_bit worker_id) == 0)

unfoldable pub mark_seen : Array ℕ → ℕ → Array ℕ
mark_seen seen worker_id =
    update seen (worker_id / 8) (u8 (bit_or (seen (worker_id / 8)) (worker_bit worker_id)))

-- The accumulate loop from round `i` on, with its two ways out.
unfoldable pub accumulate_from : Buf → (len chunk_len left i : ℕ) → Array ℕ → Array ℕ
accumulate_from frame len chunk_len zero i sum = sum
accumulate_from frame len chunk_len (suc left) i sum =
    let rest =
      accumulate_from frame len chunk_len left (i + 1)
        (update sum i (u32 (sum i + bpf_ntohl (value_at frame values_at i)))) in
    if leb chunk_len i then sum else if ltb len (values_at + 4 * (i + 1)) then sum else rest

-- The write-back loop.
unfoldable pub write_back_from : Array ℕ → (len final_chunk_len left i : ℕ) → Buf → Buf
write_back_from sum len final_chunk_len zero i frame = frame
write_back_from sum len final_chunk_len (suc left) i frame =
    let rest =
      write_back_from sum len final_chunk_len left (i + 1)
        (store32 frame (values_at + 4 * i) (bpf_ntohl (sum i))) in
    if leb final_chunk_len i
    then frame
    else if ltb len (values_at + 4 * (i + 1))
    then frame
    else rest

unfoldable pub absorb : Buf → (len chunk_len worker_id : ℕ) → GradSlot → GradSlot
absorb frame len chunk_len worker_id s = record s {
  seen_worker = mark_seen s.seen_worker worker_id;
  sum = accumulate_from frame len chunk_len max_chunk_len 0 s.sum;
  contributions_received = u16 (s.contributions_received + 1);
}

pub data Verdict : Type 0 where
  mismatch duplicate partial complete : Verdict

unfoldable pub judge : GradSlot → Verdict × GradSlot
judge s = if s.contributions_received == s.num_workers_expected then (complete, s) else (partial, s)

-- From bpf_spin_lock to bpf_spin_unlock, but for the write-back.
unfoldable pub contribute : Buf → (len chunk_len worker_id : ℕ) → GradSlot → Verdict × GradSlot
unfolding absorb judge
contribute frame len chunk_len worker_id s =
    if not (s.chunk_len == chunk_len)
    then (mismatch, s)
    else if has_seen s.seen_worker worker_id
    then (duplicate, s)
    else judge (absorb frame len chunk_len worker_id s)

unfoldable pub write_back : GradSlot → ℕ → Buf → Buf
unfolding write_back_from
write_back s len frame = write_back_from s.sum len s.chunk_len max_chunk_len 0 frame
