-- ===== src/Report.antt =====
-- src/doctor.rs: the report that `doctor` and `check` share.
use kpexec.Prelude.{
  ℕ, suc, String, Bool, true, false, ◌||◌, ◌≡◌, List, [], ◌∷◌, ◌++◌, ltb, if◌then◌else◌, All, arith,
}
use kpexec.Status.{KpexecStatus, success, config_error}
use kpexec.Message.{Message, text, number}

pub data Level : Type 0 where
  level_ok level_warn level_fail : Level

pub record Check : Type 0 where
  pub level : Level
  pub message : Message

abbrev pub check_ok : Message → Check
check_ok m = record { level = level_ok; message = m }

abbrev pub check_warn : Message → Check
check_warn m = record { level = level_warn; message = m }

abbrev pub check_fail : Message → Check
check_fail m = record { level = level_fail; message = m }

abbrev label : Level → String
label level_ok = "OK  "
label level_warn = "WARN"
label level_fail = "FAIL"

abbrev pub is_fail : Level → Bool
is_fail level_fail = true
is_fail _ = false

abbrev is_warn : Level → Bool
is_warn level_warn = true
is_warn _ = false

abbrev pub any_fail : List Check → Bool
any_fail [] = false
any_fail (c ∷ cs) = is_fail c.level || any_fail cs

unfoldable pub report_status : List Check → KpexecStatus
report_status checks = if any_fail checks then config_error else success

abbrev count_levels : (Level → Bool) → List Check → ℕ
count_levels p [] = 0
count_levels p (c ∷ cs) = let rest = count_levels p cs in if p c.level then suc rest else rest

abbrev lines_of : List Check → List Message
lines_of [] = []
lines_of (c ∷ cs) = (text "[" ∷ text (label c.level) ∷ text "] " ∷ c.message) ∷ lines_of cs

abbrev summary : ℕ → ℕ → Message
summary fails warns =
    if ltb 0 fails
    then text "doctor: "
      ∷ number fails
      ∷ text " failure(s), "
      ∷ number warns
      ∷ text " warning(s)"
      ∷ []
    else if ltb 0 warns
    then text "doctor: no failures, " ∷ number warns ∷ text " warning(s)" ∷ []
    else text "doctor: all checks passed" ∷ []

-- The lines of the report.
unfoldable pub render : List Check → List Message
render checks =
    lines_of checks
    ++ ([] ∷ summary (count_levels is_fail checks) (count_levels is_warn checks) ∷ [])

-- A check that does not fail.
abbrev pub Passes : Check → Type 0
Passes c = is_fail c.level ≡ false

pub report_status-Passes :
    (checks : List Check) → report_status checks ≡ success → All Passes checks
unfolding report_status
report_status-Passes [] h = tt
report_status-Passes (c ∷ cs) h = ground (arith, report_status-Passes cs)
