-- ===== src/Lib.antt =====
-- netsum: in-network aggregation of gradients. Workers send chunks of fixed-point values over UDP
-- (protocol/grad_proto.h); an aggregator adds the chunks of one (job, round, chunk) from all
-- workers and sends one packet on to the parameter server. There are two aggregators that mean to
-- do the same: userspace_agg/agg.c, a process, and xdp_agg/xdp_agg.c, a program that the kernel
-- runs on each frame. The parameter server, paramserver/paramserver.c, has a slot table of its own,
-- as it also runs without an aggregator.
--
-- Files:
--   Common         shared names, tests on numbers, arrays as functions, counting, and bits
--   Probe          the loop of open addressing that agg.c writes twice and paramserver.c once, and
--                  what it finds (Probe/Table: that a table is a map)
--   Proto          protocol/grad_proto.h and the byte order of xdp_agg/bpf_compat.h: a buffer is a
--                  function from offsets to bytes, `struct grad_hdr` is read and written with
--                  hdr_at and put_hdr (Proto/ByteOrder, Proto/Layout).
--                  Proto/Fixed: its Q16.16 numbers and netsum_sum_fits_i32 (Proto/Fixed/Exact: what
--                  they keep)
--   Double         IEEE doubles, of which protocol/grad_proto.h and worker/worker.c make use
--                  (Double/Round: how near a rounded quotient is)
--   Libc           what the programs take from the C library
--   Serve          the loop until max_packets of agg.c and paramserver.c
--   Parse          fuzz/parse_shared.h: agg_parse_stateless and xdp_parse_stateless
--   Fuzz           fuzz/fuzz_grad_parse.cpp: LLVMFuzzerTestOneInput, which compares them
--   Agg            userspace_agg/agg.c. Agg: slot_t, job_entry_t and the two tables; Agg/Jobs:
--                  job_hash, find_or_create_job; Agg/Slots: slot_key, find_or_create_slot,
--                  free_slot, reap_expired_slots; Agg/Packet: the body of the main loop for one
--                  packet; Agg/Loop: the loop, with the reaper's interval, dump_job_stats and the
--                  receive buffer. The proofs: Agg/Held and Agg/Account (the counters of the jobs),
--                  Agg/Account/Admit (who gets a slot), Agg/Loop/Kept and Agg/Run (whole runs),
--                  Agg/Waiting (slots in use), Agg/Slots/Key and Reap,
--                  Agg/Packet/History, Round, Signed and Sum (what a slot holds), Fresh (stale
--                  bytes), Isolated (other keys) and Emit (the output packet), Agg/Orphan (freed
--                  entries). Agg/Main: main around the loop (Agg/Exit: when it
--                  ends), Agg/Round: a whole round in the loop
--   Paramserver    paramserver/paramserver.c: find_or_create_slot and the loop of main. The proofs:
--                  Paramserver/Reach (its table is a map) and Paramserver/Pipeline (the server
--                  behind an aggregator). Paramserver/Main: main around the loop
--                  (Paramserver/Exit: when it ends), Paramserver/Whole: a whole round in its table,
--                  Paramserver/Completed: its counter
--   Xdp            xdp_agg/xdp_agg.c. Xdp/Maps: bump_stat, job_quota_increment and
--                  job_quota_decrement, over an interface of BPF hash maps; Xdp/Frame: the headers,
--                  the checks on them, ip_checksum and the rewriting of the frame; Xdp/Slot: struct
--                  grad_slot and the locked section; Xdp/Program: netsum_xdp_aggregate on one packet
--                  after another; Xdp/Cpus: the same on any number of CPUs at once, a step for each
--                  access to a shared map. The proofs are in their children: Xdp/Slot/Refine and
--                  Round relate the slots to those of agg.c, Xdp/Cpus/Invariant, Safety, Progress
--                  and Leak are about interleavings, Xdp/Cpus/Stale about an element that is given
--                  to another key while a CPU holds its address
--   Loader         ci/netsum_cfg_loader.c: the entry of config_map (Loader/Sent: where the frames go
--                  under it)
--   Worker         worker/worker.c: xorshift_double, the packet of a round, the loop over the rounds and
--                  main (Worker/Exit: when it succeeds). Worker/Packets: how agg.c reads the packets;
--                  Worker/Range and Worker/Deployment: that the sums fit; Worker/Delivery: what becomes of
--                  the packets
--   System         the workers, agg.c and the server together
--   Tests          the theorems at concrete inputs
--
-- State and time. Each function takes the tables and returns them; a pointer into a table is an
-- index, NULL is `none`, and an error exit is a constructor of Event, Verdict or Action. What a
-- process reads from outside in one iteration (the datagram, the clock, a signal, the result of
-- sendto) is an input record, and a run is a list of inputs, so a theorem on all lists is one on
-- all orders of arrival. The clock is any natural number at each reading. An int32_t sum is kept
-- as its bit pattern, with `% 2 ^ 32` at each addition; uint16_t and uint32_t counters wrap as
-- written. The host is little-endian. A packet buffer that a main leaves uninitialised is an
-- argument in Agg/Main and Paramserver/Main; Agg.Run.start and Paramserver.start have zeros
-- there.
--
-- Bounds. The probe loops run on fuel that is the capacity of their table, 65536 or 256, which is
-- the bound of the loop in the code; the accumulate and write-back loops run on the 64 rounds of
-- NETSUM_MAX_CHUNK_LEN, their own bound, and the reaper and dump_job_stats on the capacity.
--
-- Parameters. The BPF hash maps are the interface MapOps: lookup, insertion under BPF_NOEXIST that
-- may fail, a store through a found pointer, and deletion, with the laws that the kernel documents.
-- Xdp/Maps/List.antt is one implementation, of bounded size. The two lookups of config_map are
-- arguments, since userspace may change the entry between them. What the
-- functions of the C library make of a string is the record Libc, over strings of any kind, and what
-- libbpf says to the loader is a parameter too. Whether a socket can be had, bound or sent to is an
-- input of each main.
--
-- Doubles. A double is a sign and a number of units of 2^-1074, and every operation rounds to the
-- nearest, ties to even, as IEEE 754 says. The values are finite: an infinity or a NaN among the
-- arguments is left out, and a product above the largest double stays a number, which the
-- comparisons of the code treat as they treat an infinity. A cast to int32_t that is out of range,
-- which C leaves undefined, is cut to 32 bits here; the theorems are about casts in range.
--
-- Several CPUs. A place in the program with its live local variables is a value of Pc, and a
-- step is one access to a shared map, or the section under bpf_spin_lock. A CPU goes on using
-- the address of an element whose entry is deleted. A creation takes any element that no entry
-- has: addresses are numbered in the order in which they are first given, so it is a new one or
-- one that was given before, also one whose address a CPU still holds, since a preallocated hash
-- map promises nothing else. IsSparing is the condition that the last does not happen in a run.
-- The fields owner, log and sent of the memory, and accepted of a place, are read by no step:
-- the theorems speak of them. In Xdp/Program a packet runs to its end before the next, so the
-- retries after a lost race are reached there only when an insertion fails.
--
-- Not modelled: the texts of the logs and the times in them, the handler of SIGUSR1 (that its
-- flag is set is an input of an iteration), and the scripts. A signed addition that overflows,
-- which C leaves undefined, wraps here.
pub mod Common
pub mod Probe
pub mod Proto
pub mod Parse
pub mod Fuzz
pub mod Agg
pub mod Paramserver
pub mod Xdp
pub mod Double
pub mod Libc
pub mod Serve
pub mod Loader
pub mod Worker
pub mod System
pub mod Tests
