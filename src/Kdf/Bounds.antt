-- ===== src/Kdf/Bounds.antt =====
-- src/kdf.rs: what the calibration may come to.
use kpexec.Prelude.{
  ℕ, ◌+◌, ◌*◌, ◌/◌, ◌≤◌, ◌<◌, ◌≡◌, refl, Bool, true, false, ◌==◌, if◌then◌else◌, arith, subst, ap,
  sym, ◌∙◌,
}
use native.Mathlib.Nat.{div-mul-le_self, lt-div-mul-add}
use kpexec.Error.{Result, ok, ◌>>=◌, >>=-eq-ok}
use kpexec.Kdf.{
  target_duration, max_iterations, clamp, narrow, saturating, rounded, scale_iterations,
  second_pass, calibrate_iterations, u64_max,
}

scale_iterations_bounds :
    (current elapsed : ℕ)
    → (1 ≤ scale_iterations current elapsed) × (scale_iterations current elapsed ≤ max_iterations)
unfolding scale_iterations
scale_iterations_bounds current elapsed = ground arith

second_pass_bounds :
    (measure : ℕ → Result ℕ) (estimate n : ℕ)
    → second_pass measure estimate ≡ ok n
    → (1 ≤ n) × (n ≤ max_iterations)
second_pass_bounds measure estimate n h = go (estimate == 1) h
  where
    ok_inj : {a b : ℕ} → Result.ok a ≡ ok b → a ≡ b
    ok_inj h = cc

    go :
        (b : Bool)
        → (if b then ok 1 else measure estimate >>= λ t. ok (scale_iterations estimate t)) ≡ ok n
        → (1 ≤ n) × (n ≤ max_iterations)
    go true h = (omega (arith, ok_inj h), omega (arith, ok_inj h))
    go false h =
        let (t, m, e) = >>=-eq-ok (measure estimate) (λ t. ok (scale_iterations estimate t)) h in
        subst (λ n. (1 ≤ n) × (n ≤ max_iterations)) (ok_inj e) (scale_iterations_bounds estimate t)

-- Whatever the measurements say, an iteration count that the calibration gives is at least 1 and at
-- most 1000.
pub calibrate_iterations_bounds :
    (measure : ℕ → Result ℕ) (n : ℕ)
    → calibrate_iterations measure ≡ ok n
    → (1 ≤ n) × (n ≤ max_iterations)
unfolding calibrate_iterations
calibrate_iterations_bounds measure n h =
    let (one_pass, m, e) =
      >>=-eq-ok (measure 1) (λ t. second_pass measure (scale_iterations 1 t)) h in
    second_pass_bounds measure (scale_iterations 1 one_pass) n e

clamp_lem :
    (q : ℕ) → 1 < clamp (narrow q) → clamp (narrow q) < max_iterations → clamp (narrow q) ≡ q
clamp_lem q l u = ground arith

-- No product or sum of the estimate is cut off.
rounded_lem :
    (current elapsed : ℕ)
    → current ≤ max_iterations
    → elapsed ≤ u64_max
    → rounded current elapsed ≡ (current * target_duration + elapsed / 2) / elapsed
unfolding rounded
rounded_lem current elapsed c e =
    let p : saturating (current * target_duration) ≡ current * target_duration = ground arith in
    let q : saturating (current * target_duration + elapsed / 2)
        ≡ current * target_duration + elapsed / 2 =
      ground arith in
    ap (λ x. saturating (x + elapsed / 2) / elapsed) p ∙ ap (λ x. x / elapsed) q

inside_lem :
    (current elapsed : ℕ)
    → 1 < scale_iterations current elapsed
    → scale_iterations current elapsed < max_iterations
    → (0 < elapsed) × (scale_iterations current elapsed ≡ rounded current elapsed)
unfolding scale_iterations
inside_lem current elapsed l u = go (elapsed == 0) refl l u
  where
    go :
        (b : Bool)
        → (elapsed == 0) ≡ b
        → 1 < (if b then max_iterations else clamp (narrow (rounded current elapsed)))
        → (if b then max_iterations else clamp (narrow (rounded current elapsed))) < max_iterations
        → (0 < elapsed)
          × ((if b then max_iterations else clamp (narrow (rounded current elapsed)))
              ≡ rounded current elapsed)
    go true z l u = absurd (omega arith)
    go false z l u = (ground arith, clamp_lem (rounded current elapsed) l u)

nearest_lem :
    (a e : ℕ)
    → 0 < e
    → (2 * ((a + e / 2) / e * e) ≤ 2 * a + e) × (2 * a ≤ 2 * ((a + e / 2) / e * e) + e)
nearest_lem a e h =
    let l = div-mul-le_self (a + e / 2) e in
    let u = lt-div-mul-add {a = a + e / 2} {b = e} h in (omega arith, omega arith)

-- The estimate is the nearest count: as long as it is inside its bounds, the time that it would take at
-- the measured pace differs from the target, for each of the measured passes, by half a measured run
-- at most, where the run is measured in 64 bits of nanoseconds.
pub scale_iterations_nearest :
    (current elapsed : ℕ)
    → current ≤ max_iterations
    → elapsed ≤ u64_max
    → 1 < scale_iterations current elapsed
    → scale_iterations current elapsed < max_iterations
    → (2 * (scale_iterations current elapsed * elapsed) ≤ 2 * (current * target_duration) + elapsed)
      × (2 * (current * target_duration)
          ≤ 2 * (scale_iterations current elapsed * elapsed) + elapsed)
scale_iterations_nearest current elapsed c e l u =
    let (pos, f) = inside_lem current elapsed l u in
    let near = nearest_lem (current * target_duration) elapsed pos in
    let same = f ∙ rounded_lem current elapsed c e in
    (
      subst (λ q. 2 * (q * elapsed) ≤ 2 * (current * target_duration) + elapsed) (sym same) near.0,
      subst (λ q. 2 * (current * target_duration) ≤ 2 * (q * elapsed) + elapsed) (sym same) near.1,
    )
