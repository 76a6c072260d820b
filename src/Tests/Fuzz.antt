-- ===== src/Tests/Fuzz.antt =====
-- The theorems on fuzz/fuzz_grad_parse.cpp and ci/netsum_cfg_loader.c at concrete inputs.
use xdp_gradient_aggregation.Common.{
  ℕ, ◌<◌, ◌≡◌, refl, ◌==◌, if◌then◌else◌, true, some, List, [], ◌∷◌, arith, pos,
}
use xdp_gradient_aggregation.Proto.{Buf}
use xdp_gradient_aggregation.Parse.{accept, ParseResult}
use xdp_gradient_aggregation.Fuzz.{zero_counters, session}
use xdp_gradient_aggregation.Fuzz.Sessions as Sessions
use xdp_gradient_aggregation.Fuzz.Sessions.{IsSame, compare_results-IsSame, session-counts}
use xdp_gradient_aggregation.Double.{of_int}
use xdp_gradient_aggregation.Libc.{Libc}
use xdp_gradient_aggregation.Loader.{Args, main}
use xdp_gradient_aggregation.Loader.Sent.{IsLoaded, strings, main-IsLoaded}

-- One byte in each place, 1 where a header has its fan-in and its length.
abbrev packet : ℕ → Buf
packet w i = if i == 13 then w else if i == 15 then 2 else if i == 17 then 1 else 0

packet-IsBytes : (w i : ℕ) → w < 256 → packet w i < 256
packet-IsBytes w i h = ground arith

-- A good input, and one that is too short.
abbrev inputs : List (Buf × ℕ)
inputs = (packet 1, 24) ∷ (packet 1, 23) ∷ []

session-counts_example :
    session inputs zero_counters
    ≡ some (record {
      inputs = 2;
      accepted_both = Sessions.accepted inputs;
      rejected_both = Sessions.rejected inputs;
    })
session-counts_example =
    session-counts inputs
      ((λ i. packet-IsBytes 1 i (omega arith)), ((λ i. packet-IsBytes 1 i (omega arith)), tt))
      (omega arith)

abbrev result : ℕ → ParseResult
result w = record { verdict = accept; chunk_len = 1; worker_id = w; num_workers = 2 }

-- Strings are numbers here, and each reads as itself.
abbrev pub libc : Libc ℕ
libc = record {
  sscanf_mac = λ s. some (λ i. s);
  inet_pton = λ s. some s;
  atoi = λ s. s;
  atol = λ s. pos s;
  atof = λ s. of_int (pos s);
  is_agg = λ s. s == 1;
  strtoul = λ s. s;
}

abbrev args : Args ℕ
args = record {
  map_path = 3;
  mac_str = 17;
  ip_str = 0x0200000a;
  port_str = 9001;
  quota_str = some 8;
}

main-IsLoaded_example :
    IsLoaded
      (λ i. 17)
      0x0200000a
      9001
      8
      (main libc (λ path. some path) (λ fd cfg. true) (strings args))
main-IsLoaded_example =
    main-IsLoaded libc (λ path. some path) (λ fd cfg. true) args (λ i. 17) 0x0200000a 3 refl refl
      (omega arith) refl (λ cfg. refl)
