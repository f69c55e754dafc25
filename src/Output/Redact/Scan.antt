-- ===== src/Output/Redact/Scan.antt =====
-- One replacement pass of src/output.rs as a relation, and the scan for what is left.
use kpexec.Prelude.{
  ℕ, zero, suc, ◌≤◌, ◌≡◌, refl, Bool, true, false, inl, inr, none, some, List, [], ◌∷◌, ◌++◌, arith,
  length, drop, In, length-drop, Option-cases, Bool-cases,
}
use kpexec.Output.Bytes.{
  Bytes, Occurs, starts_with, is_empty, any_eq, windows, any_window_sound, any_window_complete,
}
use kpexec.Output.Redact.{
  redaction_marker, match_at, replace_from, replace_all_variants, contains_any_variant,
}

-- A run of the loop over the rest of the input, with its output and its flag.
pub data Scan (vs : List Bytes) : Bytes → Bytes → Bool → Type 0 where
  done : Scan vs [] [] false
  copy :
      {b : ℕ} {s out : Bytes} {r : Bool}
      → match_at vs (b ∷ s) ≡ none
      → Scan vs s out r
      → Scan vs (b ∷ s) (b ∷ out) r
  mask :
      {b : ℕ} {s v out : Bytes} {r : Bool}
      → match_at vs (b ∷ s) ≡ some v
      → Scan vs (drop (length v) (b ∷ s)) out r
      → Scan vs (b ∷ s) (redaction_marker ++ out) true

-- What `match_at` finds is a nonempty variant at the head of the input.
pub match_at-some :
    (vs : List Bytes) (s v : Bytes)
    → match_at vs s ≡ some v
    → In v vs × (is_empty v ≡ false) × (starts_with s v ≡ true)
unfolding match_at
match_at-some [] s v h = cc
match_at-some (w ∷ vs) s v h = ground (arith, match_at-some vs s v)

pub match_at-none :
    (vs : List Bytes) (s v : Bytes)
    → match_at vs s ≡ none
    → In v vs
    → is_empty v ≡ false
    → starts_with s v ≡ false
unfolding match_at
match_at-none [] s v h i n = elim i [ ]
match_at-none (w ∷ vs) s v h (inl e) n = ground arith
match_at-none (w ∷ vs) s v h (inr i) n = match_at-none vs s v (ground arith) i n

length_pos : (v : Bytes) → is_empty v ≡ false → 1 ≤ length v
unfolding is_empty
length_pos [] h = cc
length_pos (b ∷ v) h = omega arith

-- Fuel for the length of the input is enough.
pub replace_from-Scan :
    (f : ℕ) (vs : List Bytes) (s : Bytes)
    → length s ≤ f
    → Scan vs s (replace_from f vs s).0 (replace_from f vs s).1
unfolding replace_from
replace_from-Scan zero vs [] h = done
replace_from-Scan (suc f) vs [] h = done
replace_from-Scan zero vs (b ∷ s) h = elim h [ ]
replace_from-Scan (suc f) vs (b ∷ s) h = elim (Option-cases (match_at vs (b ∷ s))) [
  | inl e ↦ rw (e, replace_from) (copy e (replace_from-Scan f vs s (omega arith)))
  | inr (v, e) ↦
      let found = match_at-some vs (b ∷ s) v e in
      let shorter : length (drop (length v) (b ∷ s)) ≤ f =
        omega (arith, length-drop (length v) (b ∷ s), length_pos v found.1) in
      rw (e, replace_from) (mask e (replace_from-Scan f vs (drop (length v) (b ∷ s)) shorter))
]

pub replace_all_variants-Scan :
    (input : Bytes) (vs : List Bytes)
    → Scan vs input (replace_all_variants input vs).0 (replace_all_variants input vs).1
unfolding replace_all_variants
replace_all_variants-Scan input vs = replace_from-Scan (length input) vs input (omega arith)

-- A variant of the list that is left over stands somewhere in the text.
abbrev pub Leaks : Bytes → List Bytes → Type 0
Leaks s vs = (v : Bytes) × In v vs × (is_empty v ≡ false) × Occurs v s

later : (s w : Bytes) (vs : List Bytes) → Leaks s vs → Leaks s (w ∷ vs)
later s w vs (v, i, n, o) = (v, inr i, n, o)

-- A positive scan finds a nonempty variant in the input.
pub contains_any_variant_sound :
    (s : Bytes) (vs : List Bytes) → contains_any_variant s vs ≡ true → Leaks s vs
unfolding contains_any_variant
contains_any_variant_sound s [] h = cc
contains_any_variant_sound s (v ∷ vs) h = elim (Bool-cases (is_empty v)) [
  | inl empty ↦ later s v vs (contains_any_variant_sound s vs (ground arith))
  | inr full ↦ elim (Bool-cases (any_eq v (windows (length v) s))) [
    | inl found ↦ (v, inl refl, full, any_window_sound s v found)
    | inr missing ↦ later s v vs (contains_any_variant_sound s vs (ground arith))
  ]
]

-- A negative scan means that no nonempty variant is left anywhere.
pub contains_any_variant_complete :
    (s : Bytes) (vs : List Bytes) (v : Bytes)
    → contains_any_variant s vs ≡ false
    → In v vs
    → is_empty v ≡ false
    → ¬ Occurs v s
unfolding contains_any_variant
contains_any_variant_complete s [] v h i n o = elim i [ ]
contains_any_variant_complete s (w ∷ vs) v h (inl e) n o =
    ground (arith, any_window_complete s v n o)
contains_any_variant_complete s (w ∷ vs) v h (inr i) n o =
    contains_any_variant_complete s vs v (ground arith) i n o
