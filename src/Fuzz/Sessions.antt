-- ===== src/Fuzz/Sessions.antt =====
-- fuzz/fuzz_grad_parse.cpp: when the harness aborts, and what a session counts.
use xdp_gradient_aggregation.Common.{
  ℕ, suc, ◌+◌, ◌^◌, ◌<◌, ◌≡◌, ◌≢◌, ◌↔◌, ◌⊎◌, Option-cases, inl, inr, refl, sym, ap, ◌∙◌, ==_refl,
  if◌then◌else◌, none, some, List, [], ◌∷◌, length, u64, arith, Bool-cases, Bool,
}
use xdp_gradient_aggregation.Proto.{Buf}
use xdp_gradient_aggregation.Proto.Layout.{IsBytes}
use xdp_gradient_aggregation.Parse.{Verdict, accept, reject, ParseResult, agg_parse_stateless}
use xdp_gradient_aggregation.Parse.Agree.{agg-eq-xdp}
use xdp_gradient_aggregation.Fuzz.{
  Counters, zero_counters, same_verdict, compare_results, test_one_input, session,
}

Verdict-cases : (v : Verdict) → (v ≡ accept) ⊎ (v ≡ reject)
Verdict-cases accept = inl refl
Verdict-cases reject = inr refl

-- The results agree on the verdict, and on the fields where it is to accept.
pub record IsSame (r q : ParseResult) : Type 0 where
  pub verdict : r.verdict ≡ q.verdict
  pub chunk_len : r.verdict ≡ accept → r.chunk_len ≡ q.chunk_len
  pub worker_id : r.verdict ≡ accept → r.worker_id ≡ q.worker_id
  pub num_workers : r.verdict ≡ accept → r.num_workers ≡ q.num_workers

-- The comparison of the fuzz harness goes on exactly for two results with the same verdict and,
-- where it is to accept, the same three fields; for any others it aborts.
pub compare_results-IsSame :
    (r q : ParseResult) (c : Counters) → (compare_results r q c ≢ none) ↔ IsSame r q
unfolding compare_results
compare_results-IsSame r q c = elim (Verdict-cases r.verdict) [
  | inl a ↦ elim (Verdict-cases q.verdict) [
    | inl b ↦ (
      λ runs. elim (Option-cases (compare_results r q c)) [
        | inl (c', e) ↦ record {
          verdict = a ∙ sym b;
          chunk_len = λ h. ground (arith, a, b, e);
          worker_id = λ h. ground (arith, a, b, e);
          num_workers = λ h. ground (arith, a, b, e);
        }
        | inr e ↦ absurd (runs e)
      ],
      λ same e. ground (arith, a, b, e, same.chunk_len a, same.worker_id a, same.num_workers a),
    )
    | inr b ↦ (
      λ runs. absurd (runs (rw (compare_results, a, b))),
      λ same. absurd (ground (arith, a, b, same.verdict)),
    )
  ]
  | inr a ↦ elim (Verdict-cases q.verdict) [
    | inl b ↦ (
      λ runs. absurd (runs (rw (compare_results, a, b))),
      λ same. absurd (ground (arith, a, b, same.verdict)),
    )
    | inr b ↦ (
      λ runs.
          let never : ¬ (r.verdict ≡ accept) = λ h. ground (arith, a, h) in
          record {
            verdict = a ∙ sym b;
            chunk_len = λ h. absurd (never h);
            worker_id = λ h. absurd (never h);
            num_workers = λ h. absurd (never h);
          },
      λ same e. ground (arith, a, b, e),
    )
  ]
]

abbrev pub is_accepted : Buf × ℕ → Bool
is_accepted (packet, size) = same_verdict (agg_parse_stateless packet size).verdict accept

-- How many inputs the parser of agg.c accepts.
abbrev pub accepted : List (Buf × ℕ) → ℕ
accepted [] = 0
accepted (i ∷ is) = if is_accepted i then suc (accepted is) else accepted is

abbrev pub rejected : List (Buf × ℕ) → ℕ
rejected [] = 0
rejected (i ∷ is) = if is_accepted i then rejected is else suc (rejected is)

abbrev pub AreBytes : List (Buf × ℕ) → Type 0
AreBytes [] = Unit {0}
AreBytes (i ∷ is) = IsBytes i.0 × AreBytes is

compare_self :
    (r : ParseResult) (c : Counters)
    → compare_results r r c
      ≡ some (
          if same_verdict r.verdict accept
          then record c { accepted_both = u64 (c.accepted_both + 1) }
          else record c { rejected_both = u64 (c.rejected_both + 1) })
unfolding compare_results
compare_self r c = elim (Verdict-cases r.verdict) [
  | inl e ↦ rw (e, ==_refl r.chunk_len, ==_refl r.worker_id, ==_refl r.num_workers)
  | inr e ↦ rw e
]

-- One input of bytes.
test_one_input-lem :
    (i : Buf × ℕ) (c : Counters)
    → IsBytes i.0
    → test_one_input i c
      ≡ some (
          let c' = record c { inputs = u64 (c.inputs + 1) } in
          if is_accepted i
          then record c' { accepted_both = u64 (c.accepted_both + 1) }
          else record c' { rejected_both = u64 (c.rejected_both + 1) })
unfolding test_one_input
test_one_input-lem (packet, size) c bytes =
    ap
      (λ (q : ParseResult).
        compare_results (agg_parse_stateless packet size) q
          (record c { inputs = u64 (c.inputs + 1) }))
      (sym (agg-eq-xdp packet size bytes))
    ∙ compare_self (agg_parse_stateless packet size) (record c { inputs = u64 (c.inputs + 1) })

session-step :
    (i : Buf × ℕ) (is : List (Buf × ℕ)) (c c' : Counters)
    → test_one_input i c ≡ some c'
    → session (i ∷ is) c ≡ session is c'
unfolding session
session-step i is c c' e = rw (session, e) refl

-- Counters that a session can have.
record AreCounts (c : Counters) (left : ℕ) : Type 0 where
  few : c.inputs + left < 2 ^ 64
  sum : c.accepted_both + c.rejected_both ≡ c.inputs

abbrev after : Buf × ℕ → Counters → Counters
after i c =
    if is_accepted i
    then record c { inputs = c.inputs + 1; accepted_both = c.accepted_both + 1 }
    else record c { inputs = c.inputs + 1; rejected_both = c.rejected_both + 1 }

test_one_input-after :
    (i : Buf × ℕ) (c : Counters) (left : ℕ)
    → IsBytes i.0
    → AreCounts c (suc left)
    → (test_one_input i c ≡ some (after i c)) × AreCounts (after i c) left
test_one_input-after i c left bytes ok = elim (Bool-cases (is_accepted i)) [
  | inl on ↦
      let one = rw on at (test_one_input-lem i c bytes) in
      let counts : AreCounts (after i c) left =
        rw on (record { few = omega (arith, ok.few); sum = omega (arith, ok.sum) }) in
      (rw on (ground (arith, one, ok.few, ok.sum)), counts)
  | inr off ↦
      let one = rw off at (test_one_input-lem i c bytes) in
      let counts : AreCounts (after i c) left =
        rw off (record { few = omega (arith, ok.few); sum = omega (arith, ok.sum) }) in
      (rw off (ground (arith, one, ok.few, ok.sum)), counts)
]

-- Any session on inputs of bytes, from any counters.
session-from :
    (is : List (Buf × ℕ)) (c : Counters)
    → AreBytes is
    → AreCounts c (length is)
    → session is c
      ≡ some (record {
        inputs = c.inputs + length is;
        accepted_both = c.accepted_both + accepted is;
        rejected_both = c.rejected_both + rejected is;
      })
session-from [] c bytes ok = unfold session in ground arith
session-from (i ∷ is) c bytes ok =
    let (one, next) = test_one_input-after i c (length is) bytes.0 ok in
    session-step i is c (after i c) one ∙ session-from is (after i c) bytes.1 next ∙ ground arith

-- A session of the fuzz harness on fewer than 2^64 inputs of bytes never aborts, and its counters
-- are the number of inputs, of those that agg_parse_stateless accepts, and of those that it does
-- not.
pub session-counts :
    (is : List (Buf × ℕ))
    → AreBytes is
    → length is < 2 ^ 64
    → session is zero_counters
      ≡ some
          (record { inputs = length is; accepted_both = accepted is; rejected_both = rejected is })
session-counts is bytes few =
    session-from is zero_counters bytes (record { few = omega (arith, few); sum = refl })
    ∙ ground arith
