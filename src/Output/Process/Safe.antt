-- ===== src/Output/Process/Safe.antt =====
-- What src/output.rs lets out of a process.
use kpexec.Prelude.{
  ℕ, ◌≤◌, ◌≡◌, ◌↔◌, refl, Bool, true, false, ◌⊎◌, inl, inr, List, String, arith, length, In, All,
  Bool-cases, leb,
}
use kpexec.Policy.{OutputSpec}
use kpexec.Secret.{Secret}
use kpexec.Output.Bytes.{Bytes, Occurs, is_empty, Occurs-append_right}
use kpexec.Output.Variants.{Codec, secret_forms, secret_variants}
use kpexec.Output.Variants.Complete.{secret_variants_complete}
use kpexec.Output.Redact.{redact_bounded, redaction_marker}
use kpexec.Output.Redact.Scan.{Leaks}
use kpexec.Output.Redact.Complete.{
  AvoidsMarker, redact_bounded-safe, redact_bounded_complete, redact_bounded-untouched,
  redact_bounded-hopeless, redact_bounded-Leaks,
}
use kpexec.Output.Truncate.{truncate_no_split_marker}
use kpexec.Output.Truncate.Cut.{truncate_no_split_marker_bounds}
use kpexec.Output.Process.{Captured, suppressed, decoded, process_with_bound, process}

leb_of_le : (a b : ℕ) → a ≤ b → leb a b ≡ true
leb_of_le a b h = ground arith

module _ (codec : Codec) where
  -- The text shows at most `max` bytes, in which the form does not occur.
  abbrev pub Shows : Bytes → ℕ → String → Bool → Type 0
  Shows form max text truncated =
      (bytes : Bytes) × (text ≡ decoded codec bytes truncated)
      × (length bytes ≤ max)
      × ¬ Occurs form bytes

  abbrev pub variants_of : Secret → List Bytes
  variants_of secret = secret_variants codec (codec.as_bytes secret.expose)

  limited-Shows :
      (form out : Bytes) (max : ℕ)
      → ¬ Occurs form out
      → let (bytes, truncated) = truncate_no_split_marker out max in
        Shows form max (decoded codec bytes truncated) truncated
  limited-Shows form out max n =
      let (short, (rest, e), flag, same) = truncate_no_split_marker_bounds out max in
      (_, refl, short, λ o. n (rw e (Occurs-append_right _ rest form o)))

  -- Unless redaction is reported as failed, each emitted stream shows at most as many bytes as its
  -- limit, and among them no form of the secret: not its plain bytes, nor an encoding that is
  -- scanned for. This holds for every bound on the passes.
  pub process-hides_secret :
      (captured : Captured) (limits : OutputSpec) (secret : Secret) (bound : ℕ) (form : Bytes)
      → In form (secret_forms codec (codec.as_bytes secret.expose))
      → is_empty form ≡ false
      → (process_with_bound codec captured limits secret bound).redaction_failed ≡ false
      → let p = process_with_bound codec captured limits secret bound in
        Shows form limits.max_stdout_bytes p.stdout p.stdout_truncated
        × Shows form limits.max_stderr_bytes p.stderr p.stderr_truncated
  unfolding process_with_bound
  process-hides_secret captured limits secret bound form i n h =
      elim (Bool-cases (redact_bounded captured.stdout (variants_of secret) bound).1) [
        | inr bad ↦ absurd (cc (rw bad at h))
        | inl good ↦
            elim (Bool-cases (redact_bounded captured.stderr (variants_of secret) bound).1) [
              | inr bad ↦ absurd (cc (rw (good, bad) at h))
              | inl fine ↦
                  let member = ((secret_variants_complete codec _).0 form).1 (i, n) in
                  rw (good, fine)
                    (
                      limited-Shows form _ _
                          (redact_bounded-safe captured.stdout _ bound form good member n),
                      limited-Shows form _ _
                          (redact_bounded-safe captured.stderr _ bound form fine member n),
                    )
            ]
      ]

  -- A form of the secret stands in what the passes make of the stream.
  abbrev pub StillLeaks : Bytes → Secret → ℕ → Type 0
  StillLeaks stream secret bound =
      Leaks (redact_bounded stream (variants_of secret) bound).0 (variants_of secret)

  -- The streams together: a lowered flag of either is a failure, and nothing but the suppression line
  -- is then shown.
  failed_of_flags :
      (captured : Captured) (limits : OutputSpec) (secret : Secret) (bound : ℕ)
      → let p = process_with_bound codec captured limits secret bound in
        let clean = λ (stream : Bytes). (redact_bounded stream (variants_of secret) bound).1 in
        ((p.redaction_failed ≡ true)
          ↔ ((clean captured.stdout ≡ false) ⊎ (clean captured.stderr ≡ false)))
        × ((p.redaction_failed ≡ false) ⊎ (p ≡ suppressed))
  unfolding process_with_bound
  failed_of_flags captured limits secret bound =
      elim (Bool-cases (redact_bounded captured.stdout (variants_of secret) bound).1) [
        | inr bad ↦ rw bad ((λ _. inl refl, λ _. refl), inr refl)
        | inl good ↦
            elim (Bool-cases (redact_bounded captured.stderr (variants_of secret) bound).1) [
              | inr bad ↦ rw (good, bad) ((λ _. inr refl, λ _. refl), inr refl)
              | inl fine ↦ rw (good, fine) ((λ h. cc, λ h. absurd (ground arith)), inl refl)
            ]
      ]

  -- Redaction is reported as failed exactly when a form of the secret still stands in one of the two
  -- streams after the passes, whatever the bound on them; both streams are then the suppression line
  -- alone, without a byte of what was captured.
  pub process_fails_closed :
      (captured : Captured) (limits : OutputSpec) (secret : Secret) (bound : ℕ)
      → let p = process_with_bound codec captured limits secret bound in
        ((p.redaction_failed ≡ true)
          ↔ (StillLeaks captured.stdout secret bound ⊎ StillLeaks captured.stderr secret bound))
        × ((p.redaction_failed ≡ false) ⊎ (p ≡ suppressed))
  process_fails_closed captured limits secret bound =
      let (flags, shown) = failed_of_flags captured limits secret bound in
      let out = redact_bounded-Leaks captured.stdout (variants_of secret) bound in
      let err = redact_bounded-Leaks captured.stderr (variants_of secret) bound in
      (
        (
          λ h. elim (flags.0 h) [ inl o ↦ inl (out.0 o) | inr e ↦ inr (err.0 e) ],
          λ l. flags.1 (elim l [ inl o ↦ inl (out.1 o) | inr e ↦ inr (err.1 e) ]),
        ),
        shown,
      )

  -- If no form of the secret has a byte of the marker, `process` never suppresses anything.
  pub process-never_suppresses :
      (captured : Captured) (limits : OutputSpec) (secret : Secret)
      → All AvoidsMarker (variants_of secret)
      → (process codec captured limits secret).redaction_failed ≡ false
  unfolding process
  process-never_suppresses captured limits secret a =
      rw (
        redact_bounded_complete captured.stdout _ 3 a,
        redact_bounded_complete captured.stderr _ 3 a,
      )

  -- If some form of the secret stands inside the marker, then `process` suppresses all output as
  -- soon as any form stands in one of the streams.
  pub process-suppresses_marker_secret :
      (captured : Captured) (limits : OutputSpec) (secret : Secret) (form : Bytes)
      → In form (variants_of secret)
      → is_empty form ≡ false
      → Occurs form redaction_marker
      → Leaks captured.stdout (variants_of secret) ⊎ Leaks captured.stderr (variants_of secret)
      → process codec captured limits secret ≡ suppressed
  unfolding process
  process-suppresses_marker_secret captured limits secret form i n o (inl l) =
      rw (redact_bounded-hopeless captured.stdout _ 4 form i n o l)
  process-suppresses_marker_secret captured limits secret form i n o (inr l) =
      ground (arith, redact_bounded-hopeless captured.stderr (variants_of secret) 4 form i n o l)

  -- Streams that hold no form of the secret and keep to their limits come out as they went in.
  pub process-untouched :
      (captured : Captured) (limits : OutputSpec) (secret : Secret)
      → (Leaks captured.stdout (variants_of secret) → ⊥)
      → (Leaks captured.stderr (variants_of secret) → ⊥)
      → length captured.stdout ≤ limits.max_stdout_bytes
      → length captured.stderr ≤ limits.max_stderr_bytes
      → process codec captured limits secret ≡ record {
        stdout = codec.from_utf8_lossy captured.stdout;
        stderr = codec.from_utf8_lossy captured.stderr;
        stdout_truncated = false;
        stderr_truncated = false;
        redaction_failed = false;
      }
  unfolding process truncate_no_split_marker
  process-untouched captured limits secret a b c d =
      rw
        (
          redact_bounded-untouched captured.stdout _ 4 a,
          redact_bounded-untouched captured.stderr _ 4 b,
        )
        (rw (leb_of_le _ _ c, leb_of_le _ _ d))
