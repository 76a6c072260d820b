-- ===== src/Worker.antt =====
-- worker/worker.c: the gradients that a worker makes up, the packets of a round, and main behind the
-- command line.
pub mod Packets
pub mod Range
pub mod Deployment
pub mod Delivery
pub mod Exit
use xdp_gradient_aggregation.Common.{
  ℕ, zero, suc, ◌+◌, ◌*◌, ◌%◌, bit_xor, ◌<<<◌, ◌>>>◌, u32, u64, Bool, true, false, ltb,
  if◌then◌else◌, Option, none, some, List, [], ◌∷◌, pos, not, u16, i32, pos_part,
}
use xdp_gradient_aggregation.Double.{Double, of_int, multiply, divide, subtract}
use xdp_gradient_aggregation.Proto.Fixed.{word, netsum_to_fixed, netsum_sum_fits_i32}
use xdp_gradient_aggregation.Libc.{Libc}
use xdp_gradient_aggregation.Proto.{Buf, store32, put_hdr, ntohs, ntohl, hdr_size, max_chunk_len}

-- The command line, with 0 rounds for a negative number.
pub record Options : Type 0 where
  pub job_id : ℕ
  pub worker_id : ℕ
  pub num_workers : ℕ
  pub num_rounds : ℕ
  pub chunk_len : ℕ
  pub max_abs_grad : Double
  pub fixed_value : Option Double

-- The state of xorshift_double after a call.
unfoldable pub xorshift : ℕ → ℕ
xorshift x =
    let x = bit_xor x (u64 (x <<< 13)) in let x = bit_xor x (x >>> 7) in bit_xor x (u64 (x <<< 17))

-- A number in [-1, 1).
unfoldable pub xorshift_double : ℕ → Double
unfolding xorshift of_int divide subtract
xorshift_double state =
    subtract (divide (of_int (pos (xorshift state % 2000000))) (of_int (pos 1000000)))
      (of_int (pos 1))

unfoldable pub seed : ℕ → ℕ
seed worker_id = bit_xor (bit_xor 0x9E3779B97F4A7C15 (worker_id <<< 32)) 0xA5A5A5A5

abbrev pub packet_len : Options → ℕ
packet_len o = hdr_size + o.chunk_len * 4

-- The next value to convert, and the generator's state after it.
unfoldable pub next_value : Options → ℕ → Double × ℕ
unfolding xorshift_double multiply
next_value o state = elim o.fixed_value [
  | some v ↦ (v, state)
  | none ↦ (multiply (xorshift_double state) o.max_abs_grad, xorshift state)
]

-- The loop over the values, from round `i` on.
unfoldable pub fill_from : Options → (left i state : ℕ) → Buf → ℕ × Buf
unfolding next_value netsum_to_fixed
fill_from o zero i state b = (state, b)
fill_from o (suc left) i state b =
    let (v, next) = next_value o state in
    fill_from o left (i + 1) next (store32 b (hdr_size + 4 * i) (ntohl (word (netsum_to_fixed v))))

-- The packet of one round, written over that of the round before.
unfoldable pub build : Options → (round state : ℕ) → Buf → ℕ × Buf
unfolding fill_from
build o round state b = fill_from o o.chunk_len 0 state (
    put_hdr b 0 (record {
      job_id = ntohl o.job_id;
      round = ntohl (u32 round);
      chunk_id = ntohl 0;
      worker_id = ntohs o.worker_id;
      num_workers = ntohs o.num_workers;
      chunk_len = ntohs o.chunk_len;
      flags = ntohs 0;
    }))

-- The loop over the rounds: the datagrams that were sent, and whether all were. `accepts` is what
-- sendto says in each round.
unfoldable pub send_from :
    Options → (accepts : ℕ → Bool) → (left round state : ℕ) → Buf → List Buf × Bool
unfolding build
send_from o accepts zero round state b = ([], true)
send_from o accepts (suc left) round state b =
    let (next, packet) = build o round state b in
    let (rest, ok) = send_from o accepts left (round + 1) next packet in
    if accepts round then (packet ∷ rest, ok) else ([], false)

-- The loop over the rounds from the first, with the buffer as the stack has it.
unfoldable pub run : Options → (accepts : ℕ → Bool) → Buf → List Buf × Bool
unfolding send_from
run o accepts b = send_from o accepts o.num_rounds 0 (seed o.worker_id) b

-- The strings behind argv[0], up to max_abs_grad and fixed_value.
pub record Args (Str : Type 0) : Type 0 where
  pub dest_ip : Str
  pub dest_port : Str
  pub job_id : Str
  pub worker_id : Str
  pub num_workers : Str
  pub num_rounds : Str
  pub chunk_len : Str
  pub more : List Str

pub record Dest : Type 0 where
  pub ip : ℕ
  pub port : ℕ

-- What main returns, whether it warns, and what it has sent where.
pub record Outcome : Type 0 where
  pub code : ℕ
  pub warned : Bool
  pub dest : Option Dest
  pub sent : List Buf

abbrev pub failed : Bool → Outcome
failed warned = record { code = 1; warned = warned; dest = none; sent = [] }

module _ {Str : Type 0} (libc : Libc Str) where
  abbrev max_abs_of : List Str → Double
  max_abs_of [] = of_int (pos 1)
  max_abs_of (s ∷ rest) = libc.atof s

  abbrev fixed_value_of : List Str → Option Double
  fixed_value_of (s ∷ v ∷ rest) = some (libc.atof v)
  fixed_value_of _ = none

  unfoldable pub options : Args Str → Options
  unfolding of_int
  options a = record {
    job_id = u32 (libc.strtoul a.job_id);
    worker_id = u16 (libc.atoi a.worker_id);
    num_workers = u16 (libc.atoi a.num_workers);
    num_rounds = pos_part (i32 (libc.atoi a.num_rounds));
    chunk_len = u16 (libc.atoi a.chunk_len);
    max_abs_grad = max_abs_of a.more;
    fixed_value = fixed_value_of a.more;
  }

  -- The buffer, whether socket succeeds, and what sendto says in each round.
  module _ (b : Buf) (has_socket : Bool) (accepts : ℕ → Bool) where
    -- From the socket on.
    unfoldable pub send_all : Args Str → (warned : Bool) → Outcome
    unfolding options run
    send_all a warned =
        if has_socket
        then elim (libc.inet_pton a.dest_ip) [
          | none ↦ failed warned
          | some ip ↦
              let (sent, ok) = run (options a) accepts b in
              record {
                code = if ok then 0 else 1;
                warned = warned;
                dest = some (record { ip = ip; port = ntohs (u16 (libc.atoi a.dest_port)) });
                sent = sent;
              }
        ]
        else failed warned

    -- With seven arguments or more.
    unfoldable pub start : Args Str → Outcome
    unfolding send_all netsum_sum_fits_i32
    start a =
        let o = options a in
        if ltb max_chunk_len o.chunk_len
        then failed false
        else send_all a (not (netsum_sum_fits_i32 o.num_workers o.max_abs_grad))

    unfoldable pub main : List Str → Outcome
    unfolding start
    main (ip ∷ port ∷ job ∷ worker ∷ workers ∷ rounds ∷ len ∷ more) = start (record {
      dest_ip = ip;
      dest_port = port;
      job_id = job;
      worker_id = worker;
      num_workers = workers;
      num_rounds = rounds;
      chunk_len = len;
      more = more;
    })
    main _ = failed false
