-- ===== src/UserPresence.antt =====
-- src/user_presence.rs: the answer of the native authorization, as a result.
use kpexec.Prelude.{
  ◌≡◌, ◌↔◌, refl, String, Bool, true, false, str_eq, if◌then◌else◌, [], ◌∷◌, ◌==◌, arith,
  Bool-cases, inl, inr,
}
use kpexec.Status.{user_presence_denied, user_presence_unavailable, ℤ, pos, negsuc}
use kpexec.Error.{Result, ok, err, fail, internal_err, text}

abbrev pub int_eq : ℤ → ℤ → Bool
int_eq (pos a) (pos b) = a == b
int_eq (negsuc a) (negsuc b) = a == b
int_eq _ _ = false

abbrev pub authorized : ℤ
authorized = pos 0

abbrev pub denied : ℤ
denied = pos 1

abbrev pub unavailable : ℤ
unavailable = pos 2

unfoldable pub map_native_result : ℤ → String → Result (Unit {0})
map_native_result result detail =
    let detail =
      if str_eq detail "" then "LocalAuthentication did not provide a reason" else detail in
    if int_eq result authorized
    then ok tt
    else if int_eq result denied
    then fail user_presence_denied (text "user presence was not approved: " ∷ text detail ∷ [])
    else if int_eq result unavailable
    then fail user_presence_unavailable (text "user presence is unavailable: " ∷ text detail ∷ [])
    else err (internal_err (text "LocalAuthentication failed unexpectedly: " ∷ text detail ∷ []))

-- `CString::new` and the call of the native function, which are the parameters.
unfoldable pub authorize : (String → Bool) → (String → ℤ × String) → String → Result (Unit {0})
unfolding map_native_result
authorize is_c_string native reason =
    if is_c_string reason
    then (let (result, detail) = native reason in map_native_result result detail)
    else err (internal_err (text "user-presence reason contained an unexpected NUL byte" ∷ []))

int_eq_sound : (a b : ℤ) → int_eq a b ≡ true → a ≡ b
int_eq_sound (pos a) (pos b) h = ground arith
int_eq_sound (negsuc a) (negsuc b) h = ground arith
int_eq_sound (pos a) (negsuc b) h = cc
int_eq_sound (negsuc a) (pos b) h = cc

map_native_result-ok :
    (result : ℤ) (detail : String) → map_native_result result detail ≡ ok tt → result ≡ pos 0
unfolding map_native_result
map_native_result-ok result detail h = elim (Bool-cases (int_eq result authorized)) [
  | inl zero_ ↦ int_eq_sound result authorized zero_
  | inr other ↦ absurd (ground arith)
]

-- The gate opens for one answer only: the reason reaches the native call, and this answers 0.
pub authorize_iff :
    (is_c_string : String → Bool) (native : String → ℤ × String) (reason : String)
    → (authorize is_c_string native reason ≡ ok tt)
      ↔ ((is_c_string reason ≡ true) × ((native reason).0 ≡ pos 0))
unfolding authorize
authorize_iff is_c_string native reason = elim (Bool-cases (is_c_string reason)) [
  | inl c ↦ (
    λ h. (c, map_native_result-ok (native reason).0 (native reason).1 (rw c at h)),
    λ (_, n). rw (c, n) refl,
  )
  | inr c ↦ (λ h. absurd (cc (rw c at h)), λ (d, _). absurd (cc))
]
