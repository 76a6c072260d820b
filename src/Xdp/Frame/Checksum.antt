-- ===== src/Xdp/Frame/Checksum.antt =====
-- xdp_agg/xdp_agg.c: the checksum of the IP header that ip_checksum puts into a frame.
use xdp_gradient_aggregation.Common.{ℕ, ◌+◌, ◌*◌, ◌^◌, ◌<◌, ◌≤◌, ◌≡◌, ap, ◌∙◌, arith}
use xdp_gradient_aggregation.Proto.{Buf, load16, store16, store32}
use xdp_gradient_aggregation.Xdp.Frame.{
  Config, fold, complement16, checksum_from, ip_checksum, put_mac, readdress, retarget, ip_at,
  udp_at,
}

-- The bytes of the IP header are bytes.
abbrev pub IsHeader : Buf → Type 0
IsHeader f = (i : ℕ) → ip_at ≤ i → i < udp_at → f i < 2 ^ 8

-- What a receiver sums: the ten halfwords.
abbrev pub header_sum : Buf → ℕ
header_sum f =
    load16 f 14
    + load16 f 16
    + load16 f 18
    + load16 f 20
    + load16 f 22
    + load16 f 24
    + load16 f 26
    + load16 f 28
    + load16 f 30
    + load16 f 32

abbrev others_sum : Buf → ℕ
others_sum f =
    load16 f 14
    + load16 f 16
    + load16 f 18
    + load16 f 20
    + load16 f 22
    + load16 f 26
    + load16 f 28
    + load16 f 30
    + load16 f 32

word-lt : (f : Buf) (i : ℕ) → IsHeader f → ip_at ≤ i → i + 1 < udp_at → load16 f i < 2 ^ 16
unfolding load16
word-lt f i h le lt = omega (arith, h i le (omega arith), h (i + 1) (omega arith) lt)

others_sum-lt : (f : Buf) → IsHeader f → others_sum f < 9 * 2 ^ 16
others_sum-lt f h = omega (
  arith,
  word-lt f 14 h (omega arith) (omega arith),
  word-lt f 16 h (omega arith) (omega arith),
  word-lt f 18 h (omega arith) (omega arith),
  word-lt f 20 h (omega arith) (omega arith),
  word-lt f 22 h (omega arith) (omega arith),
  word-lt f 26 h (omega arith) (omega arith),
  word-lt f 28 h (omega arith) (omega arith),
  word-lt f 30 h (omega arith) (omega arith),
  word-lt f 32 h (omega arith) (omega arith),
)

-- The loop sums all halfwords but the checksum.
checksum_from-others : (f : Buf) → IsHeader f → checksum_from f ip_at 10 0 0 ≡ others_sum f
unfolding checksum_from
checksum_from-others f h = omega (arith, others_sum-lt f h)

-- A sum of nine halfwords and its complement fold to all ones.
fold-complement : (s : ℕ) → s < 9 * 2 ^ 16 → fold (fold (s + complement16 (fold (fold s)))) ≡ 0xffff
fold-complement s h = omega arith

stored-sum :
    (f : Buf) (c : ℕ) → c < 2 ^ 16 → header_sum (store16 f (ip_at + 10) c) ≡ others_sum f + c
unfolding load16 store16
stored-sum f c h = ground arith

store-ip_checksum :
    (f : Buf)
    → IsHeader f
    → fold (fold (header_sum (store16 f (ip_at + 10) (ip_checksum f ip_at)))) ≡ 0xffff
unfolding ip_checksum
store-ip_checksum f h =
    let sum = checksum_from-others f h in
    let c = ip_checksum f ip_at in
    let is_c : c ≡ complement16 (fold (fold (others_sum f))) =
      ap (λ (s : ℕ). complement16 (fold (fold s))) sum in
    ap (λ (s : ℕ). fold (fold s)) (stored-sum f c (omega (arith, is_c)))
    ∙ ap (λ (x : ℕ). fold (fold (others_sum f + x))) is_c
    ∙ fold-complement (others_sum f) (others_sum-lt f h)

readdress-IsHeader :
    (cfg : Config) (n : ℕ) (frame : Buf) → IsHeader frame → IsHeader (readdress cfg n frame)
unfolding readdress put_mac store16 store32
readdress-IsHeader cfg n frame h i le lt = ground (arith, h i le lt)

-- For any configuration, and a frame whose IP header holds bytes, the ten halfwords of the IP
-- header of the retargeted frame sum and fold to 0xffff, which is what a receiver checks.
pub retarget_checksum :
    (cfg : Config) (n : ℕ) (frame : Buf)
    → IsHeader frame
    → fold (fold (header_sum (retarget cfg n frame))) ≡ 0xffff
unfolding retarget
retarget_checksum cfg n frame h =
    store-ip_checksum (readdress cfg n frame) (readdress-IsHeader cfg n frame h)
