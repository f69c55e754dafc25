-- ===== src/Kdf.antt =====
-- src/kdf.rs: the calibration of the iteration count of a new vault. The measuring of one run is a
-- parameter, and a duration is its number of nanoseconds.
pub mod Bounds
use kpexec.Prelude.{
  ℕ, ◌+◌, ◌-◌, ◌*◌, ◌/◌, ◌^◌, ◌≤◌, Bool, true, false, ltb, ◌==◌, if◌then◌else◌, min,
}
use kpexec.Error.{Result, ok, err, ◌>>=◌}

abbrev pub target_duration : ℕ
target_duration = 500000000

abbrev pub max_iterations : ℕ
max_iterations = 1000

abbrev pub max_parallelism : ℕ
max_parallelism = 4

abbrev pub u64_max : ℕ
u64_max = 18446744073709551615

abbrev pub u128_max : ℕ
u128_max = 340282366920938463463374607431768211455

abbrev pub saturating : ℕ → ℕ
saturating n = if ltb u128_max n then u128_max else n

-- `clamp(1, MAX_ITERATIONS)`.
abbrev pub clamp : ℕ → ℕ
clamp n = if ltb n 1 then 1 else if ltb max_iterations n then max_iterations else n

-- `u64::try_from(n).unwrap_or(MAX_ITERATIONS)`.
abbrev pub narrow : ℕ → ℕ
narrow n = if ltb u64_max n then max_iterations else n

unfoldable pub rounded : ℕ → ℕ → ℕ
rounded current elapsed_nanos =
    saturating (saturating (current * target_duration) + elapsed_nanos / 2) / elapsed_nanos

unfoldable pub scale_iterations : ℕ → ℕ → ℕ
unfolding rounded
scale_iterations current elapsed_nanos =
    if elapsed_nanos == 0 then max_iterations else clamp (narrow (rounded current elapsed_nanos))

abbrev pub second_pass : (ℕ → Result ℕ) → ℕ → Result ℕ
second_pass measure estimate =
    if estimate == 1
    then ok 1
    else measure estimate >>= λ duration. ok (scale_iterations estimate duration)

unfoldable pub calibrate_iterations : (ℕ → Result ℕ) → Result ℕ
unfolding scale_iterations
calibrate_iterations measure =
    measure 1 >>= λ one_pass. second_pass measure (scale_iterations 1 one_pass)

-- `map_or(1, ..).min(MAX_PARALLELISM)`, from the number of processors, or an error.
unfoldable pub available_parallelism : Result ℕ → ℕ
available_parallelism (ok n) = min n max_parallelism
available_parallelism (err _) = min 1 max_parallelism
