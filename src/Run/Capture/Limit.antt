-- ===== src/Run/Capture/Limit.antt =====
-- src/cmd_run.rs: how much of a stream a reader keeps.
use native.Mathlib.Nat.{mul-le-mul_left}
use kpexec.Prelude.{ℕ, ◌+◌, ◌*◌, min, ◌≤◌, ◌<◌, ◌≡◌, arith, ltb, ◌==◌, Bool-cases, inl, inr}
use kpexec.Run.Capture.{capture_limit, usize_max, saturating_add, div_ceil}
use kpexec.Output.Truncate.{marker_len}

-- A reader keeps at least the bytes up to the limit of the policy, one more that shows a truncation,
-- and as many as the longest form of the secret has, unless this exceeds what a `usize` can hold.
pub le-capture_limit :
    (policy_cap len : ℕ)
    → (min (policy_cap + 1) usize_max ≤ capture_limit policy_cap len)
      × (min (policy_cap + len) usize_max ≤ capture_limit policy_cap len)
unfolding capture_limit
le-capture_limit policy_cap len = elim (Bool-cases (len == 0)) [
  | inl none' ↦ let e : len ≡ 0 = ground arith in rw none' (omega arith, omega (arith, e))
  | inr some' ↦ elim (Bool-cases (ltb marker_len len)) [
    | inl long ↦
        let lt : marker_len < len = ground arith in
        let wanted = saturating_add policy_cap 1 in
        let matches = div_ceil wanted marker_len in
        let wide : matches * marker_len ≤ matches * len =
          mul-le-mul_left matches (omega (arith, lt)) in
        let covered : wanted ≤ matches * marker_len = omega arith in
        rw (some', long) (omega (arith, covered, wide, lt), omega (arith, covered, wide, lt))
    | inr short ↦
        let ne : 1 ≤ len = ground arith in rw (some', short) (omega (arith, ne), omega arith)
  ]
]
