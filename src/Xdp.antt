-- ===== src/Xdp.antt =====
-- xdp_agg/xdp_agg.c, as one CPU runs it on one packet after another. The children follow the
-- program: the BPF maps that the kernel gives it, its parser, its slots, and its main function.
pub mod Maps
pub mod Frame
pub mod Slot
pub mod Cpus
pub mod Program
