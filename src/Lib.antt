-- ===== src/Lib.antt =====
-- The Linux Random Number Generator: its entropy sources, their health tests, the auxiliary pool and
-- the seeding of the whole.
--
-- Noise sources in the kernel deliver time stamps. lrng_health.c tests each of them; an entropy
-- source hands out data only when its tests have passed. The entropy source manager, lrng_es_mgr.c,
-- asks all sources for a seed, decides from the entropy in it whether the LRNG is minimally or fully
-- seeded, and wakes whoever waits for that. Data from outside collects in the auxiliary pool of
-- lrng_es_aux.c, a hash state with a count of entropy, which is itself one of the sources.
--
-- Common, with Common.Lists, Common.Words and Common.Bits: lists, `u32` arithmetic and bit masks over
-- the native numbers. Config: the kernel configuration and the module parameters, as a record that
-- every definition takes; Samples has one such record for the tests.
-- Definitions: lrng_definitions.h with the inline helpers of lrng_drng_mgr.h and lrng_es_aux.h.
-- Definitions.Convert has the theorems about the conversions.
-- Timer: lrng_es_timer_common.c and its header; Timer.Divisor has the theorems, over any function in
-- place of the kernel's `gcd`.
-- HealthState and Health: lrng_health.c. The state of both internal sources is the record `Health`,
-- each test a function on it. A panic of the kernel is the result `none`, and calls to `lrng_reset`
-- and `lrng_drng_force_reseed` are recorded. The theorems are below Health: Startup, Failure, Count,
-- Verdict and Invariant; Inversion and Stuck carry the lemmas on the steps.
-- Hash and SeedBuffer: `struct lrng_hash_cb` of lrng.h, as a parameter, and `struct entropy_buf` of
-- lrng_es_mgr_cb.h, with all six sources configured.
-- AuxPool: lrng_es_aux.c. AuxPool.Credit has the theorems on the entropy count, and AuxPool.Source
-- the pool as a source of the manager.
-- EntropySource: `struct lrng_es_cb` of lrng_es_mgr_cb.h, as the interface between the manager and
-- any source, with the contract `IsSource`. ManagerState and Manager: lrng_es_mgr.c over any list of
-- such sources. Manager.State has the events as a step relation, Manager.Stages what each seeding
-- stage takes, and Manager.Seeding the seed buffer.
-- IrqSource: lrng_es_irq.c over any number of CPUs. IrqSource.Collect draws a seed from their pools,
-- Insert and Interrupt fill them; the theorems are in Source, Run and Traces (the credit) and in
-- Overwrite (the words beside the time stamps).
-- SchedSource: lrng_es_sched.c, with its credit in SchedSource.Credit and the switch of the hash in
-- SchedSource.Switch.
-- KernelRng: lrng_es_krng.c and the writes of its module parameter, with the theorem on its rate in
-- KernelRng.Rate.
-- CpuSource: the rate, the multiplier and the hash switch of lrng_es_cpu.c. CpuSource.Collect draws data
-- from the processor and Compress the seed; Overrun says what is written where, and Credit what a seed
-- is credited with.
-- DrngState and Drng: the state of one DRNG of lrng_drng_mgr.c and its seeding from the sources, the
-- loop of `lrng_drng_seed_es_nolock` on fuel; DrngState.Cadence says when an instance asks for a
-- reseed, Drng.Seeding what a full seed is and Drng.Termination how many turns are enough.
-- AtomicDrng: the output of lrng_drng_atomic.c, its loop on fuel. SampleSources has six concrete
-- sources for the tests.
-- DrngMgr: the manager over all instances in lrng_drng_mgr.c, with the seeding of the atomic DRNG.
-- DrngMgr.Generate has `lrng_drng_get`, on the depth of nested calls and on turns, and DrngMgr.Work
-- the seed work, and DrngMgr.Seed `lrng_get_seed` with the sleeping interfaces. The theorems are in
-- Deliver and Total (a request is served), Frame (what it leaves alone), PrDrng and Ledger (the
-- prediction resistance DRNG), Reset, Targets and Seed.
-- Testing: the ring buffer of lrng_testing.c and its reader, a loop on fuel; what happens while the
-- reader sleeps is a list of events. Testing.Ring has the buffer as a queue, Testing.Reader a read at
-- runtime and Testing.Boot the recording at boot time.
-- ChaCha20: lrng_drng_chacha20.c, with its theorems in ChaCha20.Length.
-- JentSource: lrng_es_jent.c with its array of blocks. JentSource.Machine has the worker and any number
-- of readers as a step relation, one step for each access to a slot; Exclusive and Ledger are its
-- invariants, and Credit is about a request that runs alone.
-- Start: the allocation of a DRNG, the start of the LRNG and the sleeping request of lrng_drng_mgr.c,
-- with the theorem in Start.Sleep. Numa: lrng_numa.c, with its outcomes in Numa.Outcome.
-- Switch: lrng_switch.c over tables of the callbacks. Switch.Drngs switches the DRNGs of all instances
-- and Switch.Hashes their hashes; the theorems are in Seeded, Results and Consistent.
-- Interface: the auxiliary pool as the interfaces of lrng_interface_dev_common.c see it. Its children
-- Write, Ioctl and Read have the operations of that file and of lrng_interface_random_user.c, and Kernel
-- those of lrng_interface_random_kernel.c; Credit, Providers, Privilege and Delivery have the theorems.
-- Batch: the batched numbers of lrng_interface_aux.c, with theorems in Batch.Stream and Batch.Below.
--
-- A function on state takes the state and returns it; an operation under a lock is one step. The
-- integers are natural numbers, and where the C code works on `u32` or on an atomic counter the wrap-
-- around is written out in `add32`, `sub32` and `mul32`. The hash implementations, the cycle counter
-- and the entropy sources that stand in other files are parameters, and so is the DRNG implementation.
-- The loops take fuel: for seeding from the sources 384 turns are enough, one for each bit that a full
-- seed can take, and for the output of a DRNG and the seeding of the ChaCha20 DRNG one turn more than
-- there are bytes; a read and a write of the devices take the same bound. A request to a regular DRNG
-- nests one other at most. The seed work that new entropy starts is recorded as a call, whether it is
-- scheduled or called at once, and DrngMgr.Work has what it does.
--
-- Not modelled: the DRNGs and the hash of the kernel crypto API, the self tests, the tables of sysctl
-- and proc, the files of the testing interface, and the registration of devices, of the hardware
-- generator and of the random generators of the kernel crypto API. Memory clearing, alignment, debug
-- output and the locks' own implementation are left out.
pub mod Common
pub mod Config
pub mod Samples
pub mod Definitions
pub mod DrngState
pub mod Testing
pub mod Timer
pub mod ChaCha20
pub mod HealthState
pub mod Health
pub mod Hash
pub mod SeedBuffer
pub mod AuxPool
pub mod EntropySource
pub mod IrqSource
pub mod SchedSource
pub mod JentSource
pub mod KernelRng
pub mod CpuSource
pub mod ManagerState
pub mod Manager
pub mod SampleSources
pub mod Drng
pub mod AtomicDrng
pub mod DrngMgr
pub mod Switch
pub mod Start
pub mod Numa
pub mod Interface
pub mod Batch
