-- ===== src/Worker/Exit.antt =====
-- worker/worker.c: when main succeeds, when it warns, and what it has sent by then.
use xdp_gradient_aggregation.Common.{
  ℕ, zero, suc, ◌+◌, ◌<◌, ◌≤◌, ◌≡◌, ◌≢◌, ◌⊎◌, ◌↔◌, refl, ap, ◌∙◌, Bool, true, false, not,
  Bool-cases, ltb, inl, inr, Option, none, some, Option-cases, List, ◌∷◌, arith, length,
}
use xdp_gradient_aggregation.Proto.{Buf, max_chunk_len}
use xdp_gradient_aggregation.Proto.Fixed.{netsum_sum_fits_i32}
use xdp_gradient_aggregation.Libc.{Libc}
use xdp_gradient_aggregation.Worker.{
  Options, Args, Outcome, failed, seed, build, send_from, run, options, send_all, start, main,
}
use xdp_gradient_aggregation.Worker.Packets.{IsSound, AreRounds, send_from-AreRounds}

-- sendto accepts the packets of the rounds.
abbrev pub AcceptsAll : (ℕ → Bool) → (left round : ℕ) → Type 0
AcceptsAll accepts left round = (k : ℕ) → k < left → accepts (round + k) ≡ true

send_from-all :
    (o : Options) (accepts : ℕ → Bool) (left round state : ℕ) (b : Buf)
    → AcceptsAll accepts left round
    → ((send_from o accepts left round state b).1 ≡ true)
      × (length (send_from o accepts left round state b).0 ≡ left)
unfolding send_from
send_from-all o accepts zero round state b all = (refl, refl)
send_from-all o accepts (suc left) round state b all =
    let r = build o round state b in
    let now : accepts round ≡ true = ap accepts (omega arith) ∙ all 0 (omega arith) in
    let rest =
      send_from-all o accepts left (round + 1) r.0 r.1
        (λ k lt. ap accepts (omega arith) ∙ all (suc k) (omega arith)) in
    rw (send_from, now) (rest.0, ap suc rest.1)

AcceptsAll-suc :
    (accepts : ℕ → Bool) (left round : ℕ)
    → accepts round ≡ true
    → AcceptsAll accepts left (round + 1)
    → AcceptsAll accepts (suc left) round
AcceptsAll-suc accepts left round now later zero lt = ap accepts (omega arith) ∙ now
AcceptsAll-suc accepts left round now later (suc k) lt =
    ap accepts (omega arith) ∙ later k (omega (arith, lt))

send_from-accepted :
    (o : Options) (accepts : ℕ → Bool) (left round state : ℕ) (b : Buf)
    → (send_from o accepts left round state b).1 ≡ true
    → AcceptsAll accepts left round
unfolding send_from
send_from-accepted o accepts zero round state b ok = λ k lt. absurd (omega (arith, lt))
send_from-accepted o accepts (suc left) round state b ok = elim (Bool-cases (accepts round)) [
  | inr refused ↦ absurd (ground (arith, ok, refused))
  | inl now ↦
      let r = build o round state b in
      AcceptsAll-suc accepts left round now
        (send_from-accepted o accepts left (round + 1) r.0 r.1 (rw (send_from, now) at ok))
]

-- What main returns and leaves, for its options, the address and the socket.
pub record Exits (o : Options) (address : Option ℕ) (has_socket : Bool) (accepts : ℕ → Bool)
    (r : Outcome) : Type 0 where
  pub codes : (r.code ≡ 0) ⊎ (r.code ≡ 1)
  pub succeeds : (r.code ≡ 0) ↔ (
      (o.chunk_len ≤ max_chunk_len)
      × (has_socket ≡ true)
      × (address ≢ none)
      × AcceptsAll accepts o.num_rounds 0)
  pub all : r.code ≡ 0 → length r.sent ≡ o.num_rounds
  pub warns :
      (r.warned ≡ true)
      ↔ ((o.chunk_len ≤ max_chunk_len) × (netsum_sum_fits_i32 o.num_workers o.max_abs_grad ≡ false))
  pub rounds : IsSound o → AreRounds o 0 r.sent

-- What main needs to succeed.
abbrev Succeeds : Options → Option ℕ → Bool → (ℕ → Bool) → Type 0
Succeeds o address has_socket accepts =
    (o.chunk_len ≤ max_chunk_len)
    × (has_socket ≡ true)
    × (address ≢ none)
    × AcceptsAll accepts o.num_rounds 0

failed-Exits :
    (o : Options) (address : Option ℕ) (has_socket : Bool) (accepts : ℕ → Bool) (warned : Bool)
    → ((warned ≡ true) ↔ (
        (o.chunk_len ≤ max_chunk_len) × (netsum_sum_fits_i32 o.num_workers o.max_abs_grad ≡ false)))
    → ¬ (Succeeds o address has_socket accepts)
    → Exits o address has_socket accepts (failed warned)
failed-Exits o address has_socket accepts warned warns fails = record {
  codes = inr refl;
  succeeds = (λ e. absurd (omega (arith, e)), λ s. absurd (fails s));
  all = λ e. absurd (omega (arith, e));
  warns = warns;
  rounds = λ sound. tt;
}

module _ {Str : Type 0} (libc : Libc Str) (b : Buf) (has_socket : Bool) (accepts : ℕ → Bool)
    (a : Args Str) where
  abbrev o : Options
  o = options libc a

  abbrev address : Option ℕ
  address = libc.inet_pton a.dest_ip

  abbrev result : List Buf × Bool
  result = run o accepts b

  run-all : AcceptsAll accepts o.num_rounds 0 → (result.1 ≡ true) × (length result.0 ≡ o.num_rounds)
  unfolding run
  run-all all = send_from-all o accepts o.num_rounds 0 (seed o.worker_id) b all

  run-accepted : result.1 ≡ true → AcceptsAll accepts o.num_rounds 0
  unfolding run
  run-accepted ok = send_from-accepted o accepts o.num_rounds 0 (seed o.worker_id) b ok

  run-AreRounds : IsSound o → AreRounds o 0 result.0
  unfolding run
  run-AreRounds sound = send_from-AreRounds o accepts o.num_rounds 0 (seed o.worker_id) b sound

  -- With a length that is not too long.
  module _ (short : o.chunk_len ≤ max_chunk_len) where
    abbrev warned : Bool
    warned = not (netsum_sum_fits_i32 o.num_workers o.max_abs_grad)

    warned_iff : (warned ≡ true) ↔ (
        (o.chunk_len ≤ max_chunk_len) × (netsum_sum_fits_i32 o.num_workers o.max_abs_grad ≡ false))
    warned_iff = (λ e. (short, ground (arith, e)), λ e. ground (arith, e.1))

    sent-Exits :
        (ip : ℕ)
        → address ≡ some ip
        → has_socket ≡ true
        → Exits o address has_socket accepts (send_all libc b has_socket accepts a warned)
    unfolding send_all
    sent-Exits ip e socket =
        rw (send_all, socket, e)
          (record {
            codes = elim (Bool-cases result.1) [
              | inl ok ↦ inl (rw ok refl)
              | inr stopped ↦ inr (rw stopped refl)
            ];
            succeeds = (
              λ c. (short, refl, λ p. ground (arith, p), run-accepted (ground (arith, c))),
              λ s. rw ((run-all s.3).0) refl,
            );
            all = λ c. (run-all (run-accepted (ground (arith, c)))).1;
            warns = warned_iff;
            rounds = run-AreRounds;
          })

    send_all-Exits :
        Exits o address has_socket accepts (send_all libc b has_socket accepts a warned)
    unfolding send_all
    send_all-Exits = elim (Bool-cases has_socket) [
      | inr no_socket ↦
          rw (send_all, no_socket)
            (failed-Exits o address false accepts warned warned_iff (λ s. ground (arith, s.1)))
      | inl socket ↦ elim (Option-cases address) [
        | inl (ip, e) ↦ sent-Exits ip e socket
        | inr e ↦
            rw (send_all, socket, e)
              (failed-Exits o none true accepts warned warned_iff (λ s. s.2 refl))
      ]
    ]

  start-Exits : Exits o address has_socket accepts (start libc b has_socket accepts a)
  unfolding start
  start-Exits = elim (Bool-cases (ltb max_chunk_len o.chunk_len)) [
    | inl long ↦
        rw (start, long)
          (failed-Exits o address has_socket accepts false
            (λ e. ground (arith, e), λ s. absurd (ground (arith, long, s.0)))
            (λ s. ground (arith, long, s.0)))
    | inr short ↦ rw (start, short) (send_all-Exits (ground (arith, short)))
  ]

-- argv behind argv[0].
abbrev pub strings : {Str : Type 0} → Args Str → List Str
strings a =
    a.dest_ip ∷ a.dest_port ∷ a.job_id ∷ a.worker_id ∷ a.num_workers ∷ a.num_rounds ∷ a.chunk_len
    ∷ a.more

-- worker.c, with its seven arguments: main returns 0 or 1, and 0 exactly when the length is at
-- most 64, there is a socket, the address is read and sendto accepts the packet of every round, in
-- which case it has sent one for each; it warns exactly when the length is at most 64 and
-- netsum_sum_fits_i32 does not hold of the number of workers and max_abs_grad; and for options
-- with a job below 2^32, a worker below 256, 1 to 256 workers and at most 64 values, each packet
-- sent passes the checks of agg.c and decodes to the options and to the number of its round,
-- counted from 0, modulo 2^32.
pub main-Exits :
    {Str : Type 0} (libc : Libc Str) (b : Buf) (has_socket : Bool) (accepts : ℕ → Bool)
    (a : Args Str)
    → Exits
        (options libc a)
        (libc.inet_pton a.dest_ip)
        has_socket
        accepts
        (main libc b has_socket accepts (strings a))
unfolding main
main-Exits libc b has_socket accepts a = start-Exits libc b has_socket accepts a
