-- ===== src/Output/Truncate/Cut.antt =====
-- Where src/output.rs cuts a stream: in bounds, and never inside a marker.
use kpexec.Prelude.{
  ℕ, zero, suc, ◌+◌, ◌-◌, ◌≤◌, ◌<◌, ◌≡◌, ◌≢◌, ◌⊎◌, inl, inr, refl, Bool, true, false, [], ◌∷◌, ◌++◌,
  arith, ap, sym, ◌∙◌, leb, ltb, length, take, drop, get_or, All, Bool-cases, length-take,
  length-append, length-drop, take-append-drop, subst, ℕ_discrete, dec_lt, append-nil,
}
use native.Mathlib.Numerals.{add-one}
use kpexec.Output.Bytes.{Bytes, starts_with, starts_with_sound}
use kpexec.Output.Redact.{redaction_marker}
use kpexec.Output.Truncate.{marker_len, scan_cut, cut_point, truncate_no_split_marker}

-- Whether a marker starts at the position.
abbrev pub marker_at : Bytes → ℕ → Bool
marker_at bytes i = starts_with (drop i bytes) redaction_marker

drop-suc : (i : ℕ) (s : Bytes) → drop 1 (drop i s) ≡ drop (suc i) s
drop-suc zero s = refl
drop-suc (suc i) [] = refl
drop-suc (suc i) (b ∷ s) = drop-suc i s

drop-add_one : (i : ℕ) (s : Bytes) → drop 1 (drop i s) ≡ drop (i + 1) s
drop-add_one i s = rw add-one (drop-suc i s)

-- Before the first marker of the window nothing is found; the scan stops at it.
FirstMarker : Bytes → ℕ → ℕ → ℕ → Type 0
FirstMarker bytes j cut c =
    ((c ≡ cut) × ((i : ℕ) → j ≤ i → i < cut → marker_at bytes i ≡ false))
    ⊎ ((marker_at bytes c ≡ true) × (j ≤ c) × (c < cut))

extend-FirstMarker :
    (bytes : Bytes) (j cut c : ℕ)
    → marker_at bytes j ≡ false
    → FirstMarker bytes (j + 1) cut c
    → FirstMarker bytes j cut c
unfolding FirstMarker
extend-FirstMarker bytes j cut c h (inl (e, f)) = inl (
  e,
  λ i le lt. elim (ℕ_discrete j i) [
    | yes p ↦ subst (λ k. marker_at bytes k ≡ false) p h
    | no p ↦ f i (omega arith) lt
  ],
)
extend-FirstMarker bytes j cut c h (inr (m, le, lt)) = inr (m, omega arith, lt)

lt→ltb : (a b : ℕ) → a < b → ltb a b ≡ true
lt→ltb a b h = ground arith

scan_cut-FirstMarker :
    (bytes : Bytes) (rounds j cut : ℕ) (rest : Bytes)
    → j + rounds ≡ cut
    → cut < j + marker_len
    → rest ≡ drop j bytes
    → FirstMarker bytes j cut (scan_cut rounds j rest cut)
unfolding scan_cut FirstMarker
scan_cut-FirstMarker bytes zero j cut rest e w s = inl (refl, λ i le lt. absurd (omega arith))
scan_cut-FirstMarker bytes (suc rounds) j cut rest e w s =
    elim (Bool-cases (starts_with rest redaction_marker)) [
      | inl found ↦
          rw (found, lt→ltb cut (j + marker_len) w)
            (inr (
              subst (λ r. starts_with r redaction_marker ≡ true) s found,
              omega arith,
              omega arith,
            ))
      | inr missing ↦ rw missing (
          extend-FirstMarker bytes j cut _
            (subst (λ r. starts_with r redaction_marker ≡ false) s missing)
            (scan_cut-FirstMarker bytes rounds (j + 1) cut (drop 1 rest) (omega arith) (omega arith)
              (ap (drop 1) s ∙ drop-add_one j bytes)))
    ]

not_bracket : All (λ b. b ≢ 91) (drop 1 redaction_marker)
not_bracket = ground arith

All-get_or : (P : ℕ → Type 0) (xs : Bytes) (i : ℕ) → All P xs → i < length xs → P (get_or xs i 0)
All-get_or P [] i a h = elim h [ ]
All-get_or P (x ∷ xs) zero (p, a) h = p
All-get_or P (x ∷ xs) (suc i) (p, a) h = All-get_or P xs i a (omega arith)

get_or-append : (xs ys : Bytes) (i : ℕ) → i < length xs → get_or (xs ++ ys) i 0 ≡ get_or xs i 0
get_or-append [] ys i h = elim h [ ]
get_or-append (x ∷ xs) ys zero h = refl
get_or-append (x ∷ xs) ys (suc i) h = get_or-append xs ys i (omega arith)

bracket_first : (s : Bytes) (i : ℕ) → marker_at s i ≡ true → get_or s i 0 ≡ 91
unfolding starts_with
bracket_first [] zero h = cc
bracket_first [] (suc i) h = cc
bracket_first (b ∷ s) zero h = ground arith
bracket_first (b ∷ s) (suc i) h = bracket_first s i h

-- Two markers never overlap.
markers_apart :
    (s : Bytes) (i j : ℕ) → marker_at s i ≡ true → marker_at s j ≡ true → i < j → i + marker_len ≤ j
markers_apart s zero j h k lt = elim (dec_lt j marker_len) [
  | yes p ↦ absurd (inside s j h k lt p)
  | no p ↦ omega arith
]
  where
    inside :
        (s : Bytes) (j : ℕ)
        → marker_at s 0 ≡ true
        → marker_at s j ≡ true
        → 0 < j
        → j < marker_len
        → ⊥
    inside s zero h k lt p = elim lt [ ]
    inside s (suc j) h k lt p =
        let (after, e) = starts_with_sound s redaction_marker h in
        All-get_or (λ b. b ≢ 91) (drop 1 redaction_marker) j not_bracket (omega arith)
          (sym (get_or-append redaction_marker after (suc j) (omega arith))
            ∙ subst (λ t. get_or t (suc j) 0 ≡ 91) e (bracket_first s (suc j) k))
markers_apart [] (suc i) j h k lt = absurd (never h)
  where
    never : starts_with [] redaction_marker ≡ true → ⊥
    never h = let (after, e) = starts_with_sound [] redaction_marker h in cc e
markers_apart (b ∷ s) (suc i) zero h k lt = elim lt [ ]
markers_apart (b ∷ s) (suc i) (suc j) h k lt = omega (arith, markers_apart s i j h k (omega arith))

cut_point-FirstMarker :
    (bytes : Bytes) (max : ℕ) → FirstMarker bytes (max - (marker_len - 1)) max (cut_point bytes max)
unfolding cut_point
cut_point-FirstMarker bytes max =
    scan_cut-FirstMarker bytes _ (max - (marker_len - 1)) max _ (omega arith) (omega arith) refl

cut_point-le : (bytes : Bytes) (max : ℕ) → cut_point bytes max ≤ max
unfolding FirstMarker
cut_point-le bytes max = elim (cut_point-FirstMarker bytes max) [
  | inl (e, f) ↦ omega arith
  | inr (m, le, lt) ↦ omega arith
]

cut_point-apart :
    (bytes : Bytes) (max i : ℕ)
    → marker_at bytes i ≡ true
    → (i + marker_len ≤ cut_point bytes max) ⊎ (cut_point bytes max ≤ i)
unfolding FirstMarker
cut_point-apart bytes max i h = elim (dec_lt i (cut_point bytes max)) [
  | no p ↦ inr (omega arith)
  | yes p ↦ elim (cut_point-FirstMarker bytes max) [
    | inl (e, f) ↦ elim (dec_lt i (max - (marker_len - 1))) [
      | yes q ↦ inl (omega arith)
      | no q ↦ cc (f i (omega arith) (omega arith))
    ]
    | inr (m, le, lt) ↦ inl (markers_apart bytes i _ h m p)
  ]
]

length_cut :
    (bytes : Bytes) (max : ℕ)
    → max < length bytes
    → length (take (cut_point bytes max) bytes) ≡ cut_point bytes max
length_cut bytes max h =
    omega (arith, length-take (cut_point bytes max) bytes, cut_point-le bytes max)

marker_fits : (bytes : Bytes) (i : ℕ) → marker_at bytes i ≡ true → i + marker_len ≤ length bytes
marker_fits bytes i h =
    let (after, e) = starts_with_sound (drop i bytes) redaction_marker h in
    let whole : length (drop i bytes) ≡ marker_len + length after =
      ap length e ∙ length-append redaction_marker after in
    omega (arith, whole, length-drop i bytes)

-- What is emitted of a stream is a prefix of it, of at most `max` bytes; the flag is up exactly if
-- something was left out, and a stream that fits is emitted whole.
pub truncate_no_split_marker_bounds :
    (bytes : Bytes) (max : ℕ)
    → let (out, truncated) = truncate_no_split_marker bytes max in
      (length out ≤ max)
      × ((rest : Bytes) × (bytes ≡ out ++ rest))
      × (truncated ≡ ltb max (length bytes))
      × ((truncated ≡ true) ⊎ (out ≡ bytes))
unfolding truncate_no_split_marker
truncate_no_split_marker_bounds bytes max = elim (Bool-cases (leb (length bytes) max)) [
  | inl fits ↦ rw fits (ground arith, ([], sym (append-nil bytes)), ground arith, inr refl)
  | inr long ↦ rw long (
    omega (arith, length-take (cut_point bytes max) bytes, cut_point-le bytes max),
    (drop (cut_point bytes max) bytes, sym (take-append-drop (cut_point bytes max) bytes)),
    ground arith,
    inl refl,
  )
]

-- Each marker of a stream is emitted whole or not at all.
pub truncate-whole_markers :
    (bytes : Bytes) (max i : ℕ)
    → marker_at bytes i ≡ true
    → let out = (truncate_no_split_marker bytes max).0 in
      (i + marker_len ≤ length out) ⊎ (length out ≤ i)
unfolding truncate_no_split_marker
truncate-whole_markers bytes max i h = elim (Bool-cases (leb (length bytes) max)) [
  | inl fits ↦ rw fits (inl (marker_fits bytes i h))
  | inr long ↦ rw (long, length_cut bytes max (ground arith)) (cut_point-apart bytes max i h)
]

-- A stream over the limit is cut at the limit, or else right before a marker that lies across it.
pub truncate-take :
    (bytes : Bytes) (max : ℕ)
    → max < length bytes
    → let out = (truncate_no_split_marker bytes max).0 in
      (out ≡ take max bytes)
      ⊎ ((i : ℕ) × (marker_at bytes i ≡ true)
          × (i < max)
          × (max < i + marker_len)
          × (out ≡ take i bytes))
unfolding truncate_no_split_marker FirstMarker
truncate-take bytes max h =
    let long : leb (length bytes) max ≡ false = ground arith in
    rw long (elim (cut_point-FirstMarker bytes max) [
      | inl (e, _) ↦ inl (ap (λ c. take c bytes) e)
      | inr (m, le, lt) ↦ inr (cut_point bytes max, m, lt, omega arith, refl)
    ])
