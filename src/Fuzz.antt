-- ===== src/Fuzz.antt =====
-- fuzz/fuzz_grad_parse.cpp: the harness that runs both parsers of fuzz/parse_shared.h on each input.
pub mod Sessions
use xdp_gradient_aggregation.Common.{
  ℕ, suc, ◌+◌, ◌-◌, ◌*◌, ◌^◌, ◌<◌, ◌≤◌, ◌≡◌, ◌≢◌, ◌↔◌, ◌⊎◌, inl, inr, refl, ap, ◌∙◌, Bool, true,
  false, not, ◌||◌, ◌==◌, if◌then◌else◌, Option, none, some, List, [], ◌∷◌, length, u64, arith,
  Bool-cases,
}
use xdp_gradient_aggregation.Proto.{Buf}
use xdp_gradient_aggregation.Proto.Layout.{IsBytes}
use xdp_gradient_aggregation.Parse.{
  Verdict, accept, reject, ParseResult, agg_parse_stateless, xdp_parse_stateless,
}
use xdp_gradient_aggregation.Parse.Agree.{agg-eq-xdp}

-- The counters of the process.
pub record Counters : Type 0 where
  pub inputs : ℕ
  pub accepted_both : ℕ
  pub rejected_both : ℕ

abbrev pub zero_counters : Counters
zero_counters = record { inputs = 0; accepted_both = 0; rejected_both = 0 }

abbrev pub same_verdict : Verdict → Verdict → Bool
same_verdict accept accept = true
same_verdict reject reject = true
same_verdict _ _ = false

-- What the harness makes of the two results: `none` is abort().
unfoldable pub compare_results : ParseResult → ParseResult → Counters → Option Counters
compare_results agg_r xdp_r c =
    if not (same_verdict agg_r.verdict xdp_r.verdict) then none else elim agg_r.verdict [
      | accept ↦
          if not (agg_r.chunk_len == xdp_r.chunk_len)
            || (not (agg_r.worker_id == xdp_r.worker_id)
                || not (agg_r.num_workers == xdp_r.num_workers))
          then none
          else some (record c { accepted_both = u64 (c.accepted_both + 1) })
      | reject ↦ some (record c { rejected_both = u64 (c.rejected_both + 1) })
    ]

-- LLVMFuzzerTestOneInput
unfoldable pub test_one_input : Buf × ℕ → Counters → Option Counters
test_one_input (packet, size) c =
    compare_results (agg_parse_stateless packet size) (xdp_parse_stateless packet size)
      (record c { inputs = u64 (c.inputs + 1) })

-- A session: libFuzzer calls the harness on one input after another.
unfoldable pub session : List (Buf × ℕ) → Counters → Option Counters
session [] c = some c
session (i ∷ is) c = elim (test_one_input i c) [ none ↦ none | some c' ↦ session is c' ]
