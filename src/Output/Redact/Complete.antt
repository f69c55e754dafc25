-- ===== src/Output/Redact/Complete.antt =====
-- When one replacement pass of src/output.rs masks everything, and when no pass can.
use kpexec.Prelude.{
  ℕ, zero, suc, ◌≡◌, ◌↔◌, refl, Bool, true, false, ◌⊎◌, inl, inr, subst, All-of, Bool-cases, List,
  [], ◌∷◌, ◌++◌, arith, In, All, All-In, ap,
}
use kpexec.Output.Bytes.{
  Bytes, Occurs, starts_with, is_empty, starts_with_sound, starts_with-append, Occurs-cases,
  Occurs-append_left, Occurs-append_right, Occurs-cons,
}
use kpexec.Output.Redact.{
  redaction_marker, replace_all_variants, contains_any_variant, redact_bounded, passes,
}
use kpexec.Output.Redact.Scan.{
  Scan, done, copy, mask, match_at-some, match_at-none, replace_all_variants-Scan,
  contains_any_variant_sound, contains_any_variant_complete, Leaks,
}

-- No byte of the marker stands in the variant.
abbrev pub AvoidsMarker : Bytes → Type 0
AvoidsMarker v = All (λ b. In b redaction_marker → ⊥) v

-- What stands at the head of a pass's output and avoids the marker stood at the head of its input.
head-Scan :
    {vs : List Bytes} {s out : Bytes} {r : Bool}
    → Scan vs s out r
    → (v after : Bytes) → AvoidsMarker v
    → out ≡ v ++ after
    → (rest : Bytes) × (s ≡ v ++ rest)
head-Scan {s} t [] after a e = (s, refl)
head-Scan done (c ∷ v) after a e = absurd (cc)
head-Scan (copy n t) (c ∷ v) after (_, a) e =
    let (rest, e') = head-Scan t v after a (cc) in (rest, cc)
head-Scan (mask m t) (c ∷ v) after (k, a) e = absurd (k (inl (cc)))

-- An occurrence in `m ++ t`, where `m` is part of the marker, lies in `t`.
beyond :
    (m t v : Bytes)
    → All (λ b. In b redaction_marker) m
    → AvoidsMarker v
    → is_empty v ≡ false
    → Occurs v (m ++ t)
    → Occurs v t
unfolding is_empty
beyond [] t v h a n o = o
beyond (b ∷ m) t [] h a n o = cc
beyond (b ∷ m) t (c ∷ v) (k, h) a n o = elim (Occurs-cases b (m ++ t) (c ∷ v) o) [
  | inl (after, e) ↦ absurd (a.0 (subst (λ x. In x redaction_marker) (cc) k))
  | inr o' ↦ beyond m t (c ∷ v) h a n o'
]

-- A pass leaves no variant that avoids the marker.
Scan-clean :
    {vs : List Bytes} {s out : Bytes} {r : Bool}
    → Scan vs s out r
    → (v : Bytes) → In v vs
    → is_empty v ≡ false
    → AvoidsMarker v
    → ¬ Occurs v out
unfolding is_empty
Scan-clean done [] i n a o = cc
Scan-clean done (c ∷ v) i n a ([], after, e) = cc
Scan-clean done (c ∷ v) i n a (b ∷ before, after, e) = cc
Scan-clean {vs} (copy {b} {s} {out} m t) v i n a o = elim (Occurs-cases b out v o) [
  | inl (after, e) ↦
      let (rest, e') = head-Scan (copy m t) v after a e in
      cc (match_at-none vs (b ∷ s) v m i n, ap (λ x. starts_with x v) e', starts_with-append v rest)
  | inr o' ↦ Scan-clean t v i n a o'
]
Scan-clean (mask {out} m t) v i n a o =
    Scan-clean t v i n a
      (beyond redaction_marker out v (All-of _ redaction_marker (λ b j. j)) a n o)

-- A pass over a text without variants changes nothing, and says so.
Scan-fixed :
    {vs : List Bytes} {s out : Bytes} {r : Bool}
    → Scan vs s out r
    → (Leaks s vs → ⊥)
    → (out ≡ s) × (r ≡ false)
Scan-fixed done h = (refl, refl)
Scan-fixed {vs} (copy {b} {s} m t) h =
    let (e, f) = Scan-fixed t (λ (v, i, n, o). h (v, i, n, Occurs-cons b s v o)) in
    (ap (λ x. b ∷ x) e, f)
Scan-fixed {vs} (mask {b} {s} {v} m t) h =
    let (i, n, w) = match_at-some vs (b ∷ s) v m in
    let (after, e) = starts_with_sound (b ∷ s) v w in absurd (h (v, i, n, ([], after, e)))

-- A pass says whether it wrote a marker.
Scan-flag :
    {vs : List Bytes} {s out : Bytes} {r : Bool}
    → Scan vs s out r
    → ((r ≡ false) × (out ≡ s)) ⊎ Occurs redaction_marker out
Scan-flag done = inl (refl, refl)
Scan-flag (copy {b} {out} m t) = elim (Scan-flag t) [
  | inl (f, e) ↦ inl (f, ap (λ x. b ∷ x) e)
  | inr o ↦ inr (Occurs-cons b out redaction_marker o)
]
Scan-flag (mask {out} m t) = inr ([], out, refl)

Occurs-trans : (u v w : Bytes) → Occurs u v → Occurs v w → Occurs u w
Occurs-trans u v w o (before, after, e) =
    rw e (Occurs-append_left before (v ++ after) u (Occurs-append_right v after u o))

pub not-Leaks : (s : Bytes) (vs : List Bytes) → contains_any_variant s vs ≡ false → Leaks s vs → ⊥
not-Leaks s vs h (v, i, n, o) = contains_any_variant_complete s vs v h i n o

not_contains : (s : Bytes) (vs : List Bytes) → (Leaks s vs → ⊥) → contains_any_variant s vs ≡ false
not_contains s vs h = elim (Bool-cases (contains_any_variant s vs)) [
  | inl yes' ↦ absurd (h (contains_any_variant_sound s vs yes'))
  | inr no' ↦ no'
]

passes-fixed : (n : ℕ) (s : Bytes) (vs : List Bytes) → (Leaks s vs → ⊥) → passes n s vs ≡ s
unfolding passes
passes-fixed zero s vs h = refl
passes-fixed (suc n) s vs h =
    let (e, f) = Scan-fixed (replace_all_variants-Scan s vs) h in ground (arith, e, f)

-- A text in which no variant stands is returned as it is, and counts as clean.
pub redact_bounded-untouched :
    (input : Bytes) (variants : List Bytes) (bound : ℕ)
    → (Leaks input variants → ⊥)
    → redact_bounded input variants bound ≡ (input, true)
unfolding redact_bounded
redact_bounded-untouched input vs bound h =
    rw (passes-fixed bound input vs h, not_contains input vs h)

-- Whatever the bound, `true` means that no nonempty variant stands anywhere in the result.
pub redact_bounded-safe :
    (input : Bytes) (variants : List Bytes) (bound : ℕ) (v : Bytes)
    → (redact_bounded input variants bound).1 ≡ true
    → In v variants
    → is_empty v ≡ false
    → ¬ Occurs v (redact_bounded input variants bound).0
unfolding redact_bounded
redact_bounded-safe input vs bound v h i n o =
    contains_any_variant_complete (passes bound input vs) vs v (ground arith) i n o

-- If no variant has a byte of the marker, one pass masks every occurrence: with a positive bound
-- the result is clean, whatever the input.
pub redact_bounded_complete :
    (input : Bytes) (variants : List Bytes) (bound : ℕ)
    → All AvoidsMarker variants
    → (redact_bounded input variants (suc bound)).1 ≡ true
unfolding redact_bounded passes
redact_bounded_complete input vs bound a =
    let out = (replace_all_variants input vs).0 in
    let clean : Leaks out vs → ⊥ = λ (v, i, n, o).
      Scan-clean (replace_all_variants-Scan input vs) v i n (All-In AvoidsMarker vs v a i) o in
    ground (arith, passes-fixed bound out vs clean, not_contains out vs clean)

scan-Leaks :
    (s : Bytes) (vs : List Bytes) (v : Bytes)
    → In v vs
    → is_empty v ≡ false
    → Occurs v redaction_marker
    → Leaks s vs
    → Leaks (replace_all_variants s vs).0 vs
scan-Leaks s vs v i n o l = elim (Scan-flag (replace_all_variants-Scan s vs)) [
  | inl (f, e) ↦ rw e l
  | inr m ↦ (v, i, n, Occurs-trans v redaction_marker _ o m)
]

passes-Leaks :
    (n : ℕ) (s : Bytes) (vs : List Bytes) (v : Bytes)
    → In v vs
    → is_empty v ≡ false
    → Occurs v redaction_marker
    → Leaks s vs
    → Leaks (passes n s vs) vs
unfolding passes
passes-Leaks zero s vs v i n o l = l
passes-Leaks (suc k) s vs v i n o l = elim (Bool-cases (replace_all_variants s vs).1) [
  | inl again ↦ rw again (passes-Leaks k _ vs v i n o (scan-Leaks s vs v i n o l))
  | inr stop ↦ rw stop (scan-Leaks s vs v i n o l)
]

-- If a variant stands inside the marker itself, no number of passes helps: an input that holds any
-- variant is never clean.
pub redact_bounded-hopeless :
    (input : Bytes) (variants : List Bytes) (bound : ℕ) (v : Bytes)
    → In v variants
    → is_empty v ≡ false
    → Occurs v redaction_marker
    → Leaks input variants
    → (redact_bounded input variants bound).1 ≡ false
unfolding redact_bounded
redact_bounded-hopeless input vs bound v i n o l =
    elim (Bool-cases (contains_any_variant (passes bound input vs) vs)) [
      | inl found ↦ rw found
      | inr clean ↦ absurd (not-Leaks _ vs clean (passes-Leaks bound input vs v i n o l))
    ]

-- The flag is lowered exactly if some nonempty variant stands in the result.
pub redact_bounded-Leaks :
    (input : Bytes) (variants : List Bytes) (bound : ℕ)
    → ((redact_bounded input variants bound).1 ≡ false)
      ↔ Leaks (redact_bounded input variants bound).0 variants
unfolding redact_bounded
redact_bounded-Leaks input vs bound = (
  λ h. contains_any_variant_sound (passes bound input vs) vs (ground arith),
  λ l. elim (Bool-cases (contains_any_variant (passes bound input vs) vs)) [
    | inl found ↦ rw found refl
    | inr clean ↦ absurd (not-Leaks (passes bound input vs) vs clean l)
  ],
)
