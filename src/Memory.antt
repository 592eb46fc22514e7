-- ===== src/Memory.antt =====
-- memory/allocator.rs: the counters of the arena that the server reads and sets.
pub mod Align
pub mod Arena
pub mod Owners
pub mod Tiling
pub mod Run
pub mod Recover
pub mod Alloc
pub mod Defragment
use rust_data_broker.Prelude.{ℕ, ◌+◌, ◌-◌, ◌^◌, ◌%◌, Bool, true, false, ◌==◌, ltb, if◌then◌else◌}

-- `GLOBAL.allocated`, `GLOBAL.used` and `LOCKED_SIZE`.
pub record Memory : Type 0 where
  pub allocated : ℕ
  pub used : ℕ
  pub locked_size : ℕ

abbrev pub usize_max : ℕ
usize_max = 2 ^ 64 - 1

-- The subtraction wraps at 2 ^ 64, as in a release build.
unfoldable pub get_free_mem_size : Memory → ℕ
get_free_mem_size m =
    if m.allocated == 0 then usize_max else (m.allocated + (2 ^ 64 - m.used % 2 ^ 64)) % 2 ^ 64

-- A sum above `usize_max` is the overflow of `checked_add`.
unfoldable pub set_locked_size : Memory → ℕ → Memory × Bool
set_locked_size m size =
    if ltb usize_max (m.used + size)
    then (m, false)
    else (if ltb m.allocated (m.used + size)
        then (m, false)
        else (record m { locked_size = size }, true))
