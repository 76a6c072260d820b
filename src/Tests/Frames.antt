-- ===== src/Tests/Frames.antt =====
-- A round of xdp_agg/xdp_agg.c at concrete frames.
use xdp_gradient_aggregation.Common.{
  ℕ, ◌^◌, ◌<◌, ◌≡◌, refl, ◌==◌, if◌then◌else◌, List, [], ◌∷◌, arith,
}
use xdp_gradient_aggregation.Proto.{Buf, hdr_at, load16, load32, ntohs}
use xdp_gradient_aggregation.Proto.Layout.{IsBytes}
use xdp_gradient_aggregation.Agg.Packet.{decode}
use xdp_gradient_aggregation.Agg.Packet.History.{contributed}
use xdp_gradient_aggregation.Agg.Packet.Round.{AreNew, sum_at}
use xdp_gradient_aggregation.Xdp.Slot.{fresh_slot}
use xdp_gradient_aggregation.Xdp.Slot.Refine.{payload}
use xdp_gradient_aggregation.Xdp.Slot.Round.{
  feed_frames, messages, IsFrameRound, feed_frames-IsFrameRound,
}

-- A frame of bytes whose datagram is from worker `w` of two, with one value.
unfoldable small : ℕ → Buf
small w i = if i == 55 then w else if i == 57 then 2 else if i == 59 then 1 else 0

small-IsBytes : (w : ℕ) → w < 2 ^ 8 → IsBytes (small w)
unfolding small
small-IsBytes w lt i = ground arith

abbrev frames : List (Buf × ℕ)
frames = (small 0, 66) ∷ (small 1, 66) ∷ []

small_chunk_len : (w : ℕ) → (decode (payload (small w))).chunk_len ≡ 1
unfolding decode hdr_at load16 load32 ntohs small
small_chunk_len w = refl

small_num_workers : (w : ℕ) → (decode (payload (small w))).num_workers ≡ 2
unfolding decode hdr_at load16 load32 ntohs small
small_num_workers w = refl

frames-AreNew : AreNew (decode (payload (small 0))).chunk_len [] (messages frames)
unfolding decode hdr_at load16 load32 ntohs small contributed
frames-AreNew = (refl, refl, (refl, refl, tt))

feed_frames-IsFrameRound_example :
    IsFrameRound
      (decode (payload (small 0))).chunk_len
      2
      (λ i. sum_at i (messages frames))
      (feed_frames
        (fresh_slot (decode (payload (small 0))).chunk_len (decode (payload (small 0))).num_workers)
        frames)
feed_frames-IsFrameRound_example =
    feed_frames-IsFrameRound (small 0) 66 ((small 1, 66) ∷ [])
      (
        (small-IsBytes 0 (omega arith), omega (arith, small_chunk_len 0)),
        ((small-IsBytes 1 (omega arith), omega (arith, small_chunk_len 1)), tt),
      )
      (small_num_workers 0) (omega arith) frames-AreNew
