-- ===== src/Tests/Redaction.antt =====
-- Applications of the theorems on src/output.rs.
use kpexec.Prelude.{
  ◌≡◌, ◌↔◌, ◌≤◌, ◌+◌, refl, true, false, ◌⊎◌, inl, [], ◌∷◌, ◌++◌, codes, In, All, ltb, length,
  arith,
}
use kpexec.Policy.{OutputSpec}
use kpexec.Output.Bytes.{Bytes, is_empty, starts_with}
use kpexec.Output.Variants.{
  secret_forms, secret_variants, upper, percent_encode, shell_single_quoted_body,
}
use kpexec.Output.Variants.Complete.{secret_variants_complete, Distinct}
use kpexec.Output.Variants.RoundTrip.{
  percent_decode, plain, percent_decode-percent_encode, read_shell, quoted,
  read_shell-shell_single_quoted_body,
}
use kpexec.Output.Redact.{redact_bounded, redaction_marker}
use kpexec.Output.Redact.Complete.{redact_bounded_complete, not-Leaks}
use kpexec.Output.Truncate.{truncate_no_split_marker, marker_len}
use kpexec.Output.Truncate.Cut.{truncate_no_split_marker_bounds, truncate-whole_markers}
use kpexec.Output.Process.{Captured, process_with_bound, process, suppressed}
use kpexec.Output.Process.Safe.{
  Shows, StillLeaks, process-hides_secret, process_fails_closed, process-never_suppresses,
  process-suppresses_marker_secret, process-untouched,
}
use kpexec.Secret.{Secret}
use kpexec.Tests.{sample_codec, sample_secret}

abbrev leaky : Captured
leaky = record { stdout = codes "xaby"; stderr = [] }

abbrev harmless : Captured
harmless = record { stdout = codes "ok"; stderr = [] }

abbrev limits : OutputSpec
limits = record { max_stdout_bytes = 30; max_stderr_bytes = 30 }

-- A secret that stands inside the marker.
abbrev marker_secret : Secret
marker_secret = record { expose = "kp" }

abbrev marker_leak : Captured
marker_leak = record { stdout = codes "kp"; stderr = [] }

process-hides_secret_example :
    let p = process_with_bound sample_codec leaky limits sample_secret 1 in
    Shows sample_codec (codes "ab") 30 p.stdout p.stdout_truncated
    × Shows sample_codec (codes "ab") 30 p.stderr p.stderr_truncated
unfolding process_with_bound secret_variants secret_forms redact_bounded
process-hides_secret_example =
    process-hides_secret sample_codec leaky limits sample_secret 1 (codes "ab") (inl refl) refl refl

process_fails_closed_example :
    let p = process_with_bound sample_codec marker_leak limits marker_secret 1 in
    ((p.redaction_failed ≡ true) ↔ (
      StillLeaks sample_codec (codes "kp") marker_secret 1
      ⊎ StillLeaks sample_codec [] marker_secret 1))
    × ((p.redaction_failed ≡ false) ⊎ (p ≡ suppressed))
process_fails_closed_example = process_fails_closed sample_codec marker_leak limits marker_secret 1

avoids : All (λ b. In b redaction_marker → ⊥) (codes "ab")
avoids = (λ i. ground arith, (λ i. ground arith, tt))

process-never_suppresses_example :
    (process sample_codec leaky limits sample_secret).redaction_failed ≡ false
unfolding secret_variants secret_forms
process-never_suppresses_example =
    process-never_suppresses sample_codec leaky limits sample_secret (avoids, tt)

process-suppresses_marker_secret_example :
    process sample_codec marker_leak limits marker_secret ≡ suppressed
unfolding secret_variants secret_forms
process-suppresses_marker_secret_example =
    process-suppresses_marker_secret sample_codec marker_leak limits marker_secret (codes "kp")
      (inl refl) refl (codes "[REDACTED:", codes "exec]", refl)
      (inl (codes "kp", inl refl, refl, ([], [], refl)))

process-untouched_example : process sample_codec harmless limits sample_secret ≡ record {
  stdout = "ok";
  stderr = "";
  stdout_truncated = false;
  stderr_truncated = false;
  redaction_failed = false;
}
unfolding secret_variants secret_forms redact_bounded
process-untouched_example =
    process-untouched sample_codec harmless limits sample_secret
      (not-Leaks (codes "ok") (codes "ab" ∷ []) refl) (not-Leaks [] (codes "ab" ∷ []) refl)
      (omega arith) (omega arith)

redact_bounded_complete_example : (redact_bounded (codes "xaabb") (codes "ab" ∷ []) 1).1 ≡ true
redact_bounded_complete_example =
    redact_bounded_complete (codes "xaabb") (codes "ab" ∷ []) 0 (avoids, tt)

-- "ab", a marker, "c".
abbrev marked : Bytes
marked = codes "ab" ++ (redaction_marker ++ codes "c")

truncate_no_split_marker_bounds_example :
    let (out, truncated) = truncate_no_split_marker marked 4 in
    (length out ≤ 4)
    × ((rest : Bytes) × (marked ≡ out ++ rest))
    × (truncated ≡ ltb 4 20)
    × ((truncated ≡ true) ⊎ (out ≡ marked))
truncate_no_split_marker_bounds_example = truncate_no_split_marker_bounds marked 4

truncate-whole_markers_example :
    let out = (truncate_no_split_marker marked 4).0 in
    (2 + marker_len ≤ length out) ⊎ (length out ≤ 2)
unfolding starts_with
truncate-whole_markers_example = truncate-whole_markers marked 4 2 refl

abbrev quoted_bytes : Bytes
quoted_bytes = codes "a'b c"

secret_variants_complete_example :
    ((f : Bytes)
      → In f (secret_variants sample_codec quoted_bytes)
        ↔ (In f (secret_forms sample_codec quoted_bytes) × (is_empty f ≡ false)))
    × Distinct (secret_variants sample_codec quoted_bytes)
secret_variants_complete_example = secret_variants_complete sample_codec quoted_bytes

percent_decode-percent_encode_example :
    percent_decode plain (percent_encode (32 ∷ 255 ∷ []) upper) ≡ 32 ∷ 255 ∷ []
percent_decode-percent_encode_example =
    percent_decode-percent_encode (32 ∷ 255 ∷ []) upper (omega arith, (omega arith, tt))

read_shell-shell_single_quoted_body_example :
    read_shell quoted (shell_single_quoted_body quoted_bytes) ≡ quoted_bytes
read_shell-shell_single_quoted_body_example = read_shell-shell_single_quoted_body quoted_bytes
