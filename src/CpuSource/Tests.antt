-- ===== src/CpuSource/Tests.antt =====
-- A processor whose longs have the same byte eight times, the next one at each call.
use lrng.Common.{
  zero, suc, ◌≤◌, ℕ, ◌+◌, ◌*◌, ◌≡◌, refl, true, false, List, [], ◌∷◌, length, some, arith,
}
use lrng.Samples.{fips}
use lrng.Hash.{HashCb}
use lrng.CpuSource.{Cpu, CpuConfig}
use lrng.CpuSource.Compress.{cpu_get}
use lrng.CpuSource.Credit.{cpu_get-le}
use lrng.CpuSource.Collect.{Memory, CpuData, get_cpu_data}
use lrng.CpuSource.Overrun.{one_long, get_cpu_data-overrun}

abbrev repeated : ℕ → ℕ
repeated t = t * 72340172838076673

abbrev next : ℕ → ℕ
next t = t + 1

abbrev no_longs : ℕ → ℕ → List ℕ × ℕ
no_longs room t = ([], t)

abbrev blank : Memory
blank k = 0

abbrev trusted : Cpu
trusted = record { cpu_entropy = 8; data_multiplier = 1 }

get_cpu_data-overrun_example :
    (d : CpuData ℕ) × (get_cpu_data (one_long repeated next no_longs) no_longs 24 blank trusted 1
      ≡ some d)
    × (d.ent_bits ≡ 24)
    × (d.outbuf 1 ≡ 2)
    × (d.outbuf 9 ≡ 3)
get_cpu_data-overrun_example =
    get_cpu_data-overrun repeated next no_longs 24 2 7 1 blank trusted 1 refl (omega arith)
      (omega arith) (omega arith)

-- A hash that always works, with a digest of two bytes: the count of the bytes that it took, twice.
abbrev count_hash : HashCb ℕ
count_hash = record {
  hash_digestsize = 2;
  hash_init = λ s. (0, 0);
  hash_update = λ s bytes. (0, s + length bytes);
  hash_final = λ s. (0, s, s ∷ s ∷ []);
}

abbrev riscv_arch : CpuConfig
riscv_arch = record {
  x86 = false;
  ppc = false;
  riscv = true;
  cpu_entropy_rate = 8;
  cpu_full_ent_multiplier = 1;
}

abbrev fresh_cpu : Cpu
fresh_cpu = record { cpu_entropy = 8; data_multiplier = 0 }

abbrev long_if_room : ℕ → ℕ → List ℕ × ℕ
long_if_room zero t = ([], t)
long_if_room (suc room) t = (repeated t ∷ [], t + 1)

long_if_room-le : (room t : ℕ) → length (long_if_room room t).0 ≤ room
long_if_room-le zero t = omega arith
long_if_room-le (suc room) t = omega arith

no_longs-le : (room t : ℕ) → length (no_longs room t).0 ≤ room
no_longs-le room t = omega arith

cpu_get-le_example :
    (n : ℕ) × (d : CpuData ℕ) × (cpu_get long_if_room no_longs count_hash fips riscv_arch 24 blank
        fresh_cpu 1 0
      ≡ some (n, d))
    × (n ≤ 24)
cpu_get-le_example =
    cpu_get-le long_if_room no_longs count_hash long_if_room-le no_longs-le fips riscv_arch 24 blank
      fresh_cpu 1 0 (omega arith)
