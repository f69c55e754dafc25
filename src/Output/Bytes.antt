-- ===== src/Output/Bytes.antt =====
-- Byte strings, and what the output pipeline of src/output.rs uses of the standard library's slices.
use kpexec.Prelude.{
  ℕ, suc, ◌≡◌, refl, Bool, true, false, ◌&&◌, ◌⊎◌, List, [], ◌∷◌, ◌++◌, arith, ◌==◌, leb,
  if◌then◌else◌, length, take, append_assoc, take-append-drop, drop, inl, inr, ◌||◌, take-append,
  length-append, Bool-cases, ap, sym, ◌∙◌, ◌≤◌,
}

abbrev pub Bytes : Type 0
Bytes = List ℕ

-- `slice::starts_with`.
unfoldable pub starts_with : Bytes → Bytes → Bool
starts_with s [] = true
starts_with [] (c ∷ v) = false
starts_with (b ∷ s) (c ∷ v) = b == c && starts_with s v

-- `==` on slices.
unfoldable pub bytes_eq : Bytes → Bytes → Bool
bytes_eq [] [] = true
bytes_eq (b ∷ s) (c ∷ t) = b == c && bytes_eq s t
bytes_eq _ _ = false

unfoldable pub is_empty : Bytes → Bool
is_empty [] = true
is_empty (_ ∷ _) = false

-- `slice::windows` at a positive width.
unfoldable pub windows : ℕ → Bytes → List Bytes
windows n [] = []
windows n (b ∷ s) = if leb n (suc (length s)) then take n (b ∷ s) ∷ windows n s else []

-- `v` stands somewhere in `s`.
abbrev pub Occurs : Bytes → Bytes → Type 0
Occurs v s = (before : Bytes) × (after : Bytes) × (s ≡ before ++ (v ++ after))

pub starts_with_sound : (s v : Bytes) → starts_with s v ≡ true → (after : Bytes) × (s ≡ v ++ after)
unfolding starts_with
starts_with_sound s [] h = (s, refl)
starts_with_sound [] (c ∷ v) h = cc
starts_with_sound (b ∷ s) (c ∷ v) h =
    let (after, e) = starts_with_sound s v (ground arith) in (after, ground arith)

pub starts_with-append : (v after : Bytes) → starts_with (v ++ after) v ≡ true
unfolding starts_with
starts_with-append [] after = refl
starts_with-append (c ∷ v) after = ground (arith, starts_with-append v after)

pub bytes_eq_sound : (s t : Bytes) → bytes_eq s t ≡ true → s ≡ t
unfolding bytes_eq
bytes_eq_sound [] [] h = refl
bytes_eq_sound (b ∷ s) (c ∷ t) h = ground (arith, bytes_eq_sound s t)
bytes_eq_sound [] (c ∷ t) h = cc
bytes_eq_sound (b ∷ s) [] h = cc

pub bytes_eq_refl : (s : Bytes) → bytes_eq s s ≡ true
unfolding bytes_eq
bytes_eq_refl [] = refl
bytes_eq_refl (b ∷ s) = ground (arith, bytes_eq_refl s)

pub Occurs-append_left : (p s v : Bytes) → Occurs v s → Occurs v (p ++ s)
Occurs-append_left p s v (before, after, e) = (p ++ before, after, simp (e, append_assoc))

pub Occurs-append_right : (s t v : Bytes) → Occurs v s → Occurs v (s ++ t)
Occurs-append_right s t v (before, after, e) = (before, after ++ t, simp (e, append_assoc))

-- What occurs in a prefix occurs in the whole.
pub Occurs-take : (n : ℕ) (s v : Bytes) → Occurs v (take n s) → Occurs v s
Occurs-take n s v o = rw (take-append-drop n s) at (Occurs-append_right (take n s) (drop n s) v o)

pub Occurs-cons : (b : ℕ) (s v : Bytes) → Occurs v s → Occurs v (b ∷ s)
Occurs-cons b s v o = Occurs-append_left (b ∷ []) s v o

-- An occurrence in a nonempty string is at its head or in its tail.
pub Occurs-cases :
    (b : ℕ) (s v : Bytes) → Occurs v (b ∷ s) → ((after : Bytes) × (b ∷ s ≡ v ++ after)) ⊎ Occurs v s
Occurs-cases b s v ([], after, e) = inl (after, e)
Occurs-cases b s v (c ∷ before, after, e) = inr (before, after, cc)

-- `windows(v.len()).any(|w| w == v)`.
unfoldable pub any_eq : Bytes → List Bytes → Bool
unfolding bytes_eq
any_eq v [] = false
any_eq v (w ∷ ws) = bytes_eq w v || any_eq v ws

or_cases : (a b : Bool) → (a || b) ≡ true → (a ≡ true) ⊎ (b ≡ true)
or_cases true b h = inl refl
or_cases false b h = inr h

take_of_eq : (b : ℕ) (s v : Bytes) → take (length v) (b ∷ s) ≡ v → Occurs v (b ∷ s)
take_of_eq b s v e = (
  [],
  drop (length v) (b ∷ s),
  sym (ap (λ t. t ++ drop (length v) (b ∷ s)) (sym e) ∙ take-append-drop (length v) (b ∷ s)),
)

pub any_window_sound : (s v : Bytes) → any_eq v (windows (length v) s) ≡ true → Occurs v s
unfolding any_eq windows
any_window_sound [] v h = cc
any_window_sound (b ∷ s) v h = elim (Bool-cases (leb (length v) (suc (length s)))) [
  | inl fits ↦ elim (or_cases _ _ (rw fits at h)) [
    | inl e ↦ take_of_eq b s v (bytes_eq_sound _ v e)
    | inr r ↦ Occurs-cons b s v (any_window_sound s v r)
  ]
  | inr short ↦ absurd (cc (rw short at h))
]

pub length-Occurs : (s v : Bytes) → Occurs v s → length v ≤ length s
length-Occurs s v (before, after, e) =
    omega (arith, ap length e, length-append before (v ++ after), length-append v after)

leb_of_le : (a b : ℕ) → a ≤ b → leb a b ≡ true
leb_of_le a b h = ground arith

or-true : (b : Bool) → (b || true) ≡ true
or-true true = refl
or-true false = refl

take_of_append : (s v after : Bytes) → s ≡ v ++ after → take (length v) s ≡ v
take_of_append s v after e = rw e (take-append v after)

pub any_window_complete :
    (s v : Bytes) → is_empty v ≡ false → Occurs v s → any_eq v (windows (length v) s) ≡ true
unfolding any_eq windows is_empty
any_window_complete [] [] h o = cc
any_window_complete [] (c ∷ v) h o = absurd (omega (arith, length-Occurs [] (c ∷ v) o))
any_window_complete (b ∷ s) v h o = elim (Occurs-cases b s v o) [
  | inl (after, e) ↦ rw (fits, take_of_append (b ∷ s) v after e, bytes_eq_refl v)
  | inr o' ↦ rw (fits, any_window_complete s v h o', or-true)
]
  where
    fits : leb (length v) (suc (length s)) ≡ true
    fits = leb_of_le _ _ (length-Occurs (b ∷ s) v o)
