-- ===== src/Status/Codes.antt =====
-- The exit codes and wire names of src/status.rs tell the statuses apart.
use kpexec.Prelude.{
  min, inl, inr, ◌⊎◌, ℕ, ◌≤◌, ◌==◌, ◌≡◌, refl, String, Option, none, some, arith, str_eq,
  if◌then◌else◌, ap, sym, ◌∙◌, List, [], ◌∷◌,
}
use kpexec.Status.{
  KpexecStatus, success, unknown_entry, unknown_command, malformed_policy, exe_hash_mismatch,
  unlock_failed, redaction_failure, timeout, config_error, not_implemented, user_presence_denied,
  user_presence_unavailable, internal, as_str, pos, negsuc, kpexec_level, child_exit, code,
}

abbrev statuses : List KpexecStatus
statuses =
    success ∷ unknown_entry ∷ unknown_command ∷ malformed_policy ∷ exe_hash_mismatch ∷ unlock_failed
    ∷ redaction_failure ∷ timeout ∷ config_error ∷ not_implemented ∷ user_presence_denied
    ∷ user_presence_unavailable ∷ internal ∷ []

-- The status with the wire name, searched among all of them.
of_str : List KpexecStatus → String → Option KpexecStatus
unfolding as_str
of_str [] s = none
of_str (x ∷ xs) s = if str_eq (as_str x) s then some x else of_str xs s

of_str-as_str : (x : KpexecStatus) → of_str statuses (as_str x) ≡ some x
unfolding of_str
of_str-as_str success = refl
of_str-as_str unknown_entry = refl
of_str-as_str unknown_command = refl
of_str-as_str malformed_policy = refl
of_str-as_str exe_hash_mismatch = refl
of_str-as_str unlock_failed = refl
of_str-as_str redaction_failure = refl
of_str-as_str timeout = refl
of_str-as_str config_error = refl
of_str-as_str not_implemented = refl
of_str-as_str user_presence_denied = refl
of_str-as_str user_presence_unavailable = refl
of_str-as_str internal = refl

-- The status with the exit code, searched among all of them.
of_code : List KpexecStatus → ℕ → Option KpexecStatus
unfolding code
of_code [] n = none
of_code (x ∷ xs) n = if code (kpexec_level x) == n then some x else of_code xs n

of_code-code : (x : KpexecStatus) → of_code statuses (code (kpexec_level x)) ≡ some x
unfolding of_code
of_code-code success = refl
of_code-code unknown_entry = refl
of_code-code unknown_command = refl
of_code-code malformed_policy = refl
of_code-code exe_hash_mismatch = refl
of_code-code unlock_failed = refl
of_code-code redaction_failure = refl
of_code-code timeout = refl
of_code-code config_error = refl
of_code-code not_implemented = refl
of_code-code user_presence_denied = refl
of_code-code user_presence_unavailable = refl
of_code-code internal = refl

some_inj : {x y : KpexecStatus} → some x ≡ some y → x ≡ y
some_inj e = cc

-- Two statuses with one wire name, or with one exit code, are one status.
pub status_injective :
    (x y : KpexecStatus)
    → (as_str x ≡ as_str y) ⊎ (code (kpexec_level x) ≡ code (kpexec_level y))
    → x ≡ y
status_injective x y (inl e) =
    some_inj (sym (of_str-as_str x) ∙ ap (of_str statuses) e ∙ of_str-as_str y)
status_injective x y (inr e) =
    some_inj (sym (of_code-code x) ∙ ap (of_code statuses) e ∙ of_code-code y)

-- A kpexec-level result exits with 0 if it is a success, and else in the band from 100 to 111; a
-- child's code is passed on as it is up to 255, and every other code becomes 255.
pub code_bands :
    ((x : KpexecStatus)
      → ((x ≡ success) × (code (kpexec_level x) ≡ 0))
        ⊎ ((100 ≤ code (kpexec_level x)) × (code (kpexec_level x) ≤ 111)))
    × ((n : ℕ) → code (child_exit (pos n)) ≡ min n 255)
    × ((n : ℕ) → code (child_exit (negsuc n)) ≡ 255)
unfolding code
code_bands = (λ x. ground arith, λ n. ground arith, λ n. refl)
