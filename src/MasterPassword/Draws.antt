-- ===== src/MasterPassword/Draws.antt =====
-- src/masterpw.rs: enough draws give a password, and every character is equally likely.
use kpexec.Prelude.{
  ℕ, zero, suc, ◌+◌, ◌%◌, ◌*◌, ◌/◌, ◌≤◌, ◌<◌, ◌≡◌, ◌↔◌, refl, Bool, true, false, some, List, [],
  ◌∷◌, length, take, ltb, if◌then◌else◌, arith,
}
use kpexec.MasterPassword.{
  alpha_len, limit, password_length, generate_from, onto, generate, secret_of,
}

-- The draws that the loop does not reject, as positions in the alphabet.
abbrev pub indices : List ℕ → List ℕ
indices [] = []
indices (n ∷ draws) = let rest = indices draws in if ltb n limit then n % alpha_len ∷ rest else rest

-- The loop is the reduction of the first accepted draws.
generate_from_lem :
    (missing : ℕ) (draws : List ℕ)
    → missing ≤ length (indices draws)
    → generate_from missing draws ≡ some (take missing (indices draws))
unfolding generate_from
generate_from_lem zero draws h = refl
generate_from_lem (suc missing) [] h = absurd (omega arith)
generate_from_lem (suc missing) (n ∷ draws) h =
    go (ltb n limit) (generate_from_lem missing draws) (generate_from_lem (suc missing) draws) h
  where
    go :
        (b : Bool)
        → (missing ≤ length (indices draws)
            → generate_from missing draws ≡ some (take missing (indices draws)))
        → (suc missing ≤ length (indices draws)
            → generate_from (suc missing) draws ≡ some (take (suc missing) (indices draws)))
        → suc missing ≤ length (if b then n % alpha_len ∷ indices draws else indices draws)
        → (if b
            then onto (n % alpha_len) (generate_from missing draws)
            else generate_from (suc missing) draws)
          ≡ some (take (suc missing) (if b then n % alpha_len ∷ indices draws else indices draws))
    go true kept again h = rw (kept (omega arith))
    go false kept again h = again h

-- However many draws were rejected before: as soon as as many as a password is long are below the limit,
-- the generation ends, with the characters at the remainders of the first of them.
pub generate-indices :
    (draws : List ℕ)
    → password_length ≤ length (indices draws)
    → generate draws ≡ some (secret_of (take password_length (indices draws)))
unfolding generate
generate-indices draws h = rw (generate_from_lem password_length draws h)

-- The accepted draws with a given remainder are one in every block of the alphabet's length, of a
-- number of blocks that does not depend on the remainder: none is likelier than another.
pub accepted_uniform :
    (i n : ℕ)
    → i < alpha_len
    → ((n < limit) × (n % alpha_len ≡ i)) ↔ ((k : ℕ) × (k < 75350303) × (n ≡ i + alpha_len * k))
unfolding limit alpha_len
accepted_uniform i n h =
    (λ (p, q). (n / 57, omega arith, omega arith), λ (k, p, q). (omega arith, omega arith))
