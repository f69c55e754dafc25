-- ===== src/Output/Variants/Complete.antt =====
-- The list of variants holds exactly the nonempty forms, each once.
use kpexec.Prelude.{
  ◌≤◌, ◌≡◌, ◌↔◌, refl, true, false, ◌⊎◌, inl, inr, List, [], ◌∷◌, ◌++◌, arith, length, In,
  Bool-cases, sym, subst,
}
use kpexec.Output.Bytes.{Bytes, is_empty, bytes_eq, bytes_eq_sound, bytes_eq_refl}
use kpexec.Output.Variants.{
  Codec, secret_forms, retain_nonempty, any_equal, dedup_from, dedup_bytes, secret_variants,
  longest, max_secret_variant_len,
}

retain-In :
    (vs : List Bytes) (f : Bytes) → In f (retain_nonempty vs) ↔ (In f vs × (is_empty f ≡ false))
unfolding retain_nonempty
retain-In [] f = (λ i. elim i [ ], λ h. elim h.0 [ ])
retain-In (v ∷ vs) f = ground (arith, retain-In vs f)

any_equal-In : (v : Bytes) (u : List Bytes) → (any_equal v u ≡ true) ↔ In v u
unfolding any_equal
any_equal-In v [] = (λ h. absurd (cc h), λ i. elim i [ ])
any_equal-In v (w ∷ u) = elim (Bool-cases (bytes_eq w v)) [
  | inl e ↦ (λ h. inl (sym (bytes_eq_sound w v e)), λ i. rw e)
  | inr d ↦ rw d (
    λ h. inr ((any_equal-In v u).0 h),
    λ i. elim i [
      | inl e ↦ absurd (cc (bytes_eq_refl v, subst (λ x. bytes_eq x v ≡ false) (sym e) d))
      | inr j ↦ (any_equal-In v u).1 j
    ],
  )
]

In-append_iff : (f : Bytes) (xs ys : List Bytes) → In f (xs ++ ys) ↔ (In f xs ⊎ In f ys)
In-append_iff f [] ys = (inr, λ h. ground arith)
In-append_iff f (x ∷ xs) ys = ground (arith, In-append_iff f xs ys)

dedup_from-In : (vs u : List Bytes) (f : Bytes) → In f (dedup_from u vs) ↔ (In f u ⊎ In f vs)
unfolding dedup_from
dedup_from-In [] u f = (inl, λ h. ground arith)
dedup_from-In (v ∷ vs) u f = elim (Bool-cases (any_equal v u)) [
  | inl old ↦ rw old (
      let i = (any_equal-In v u).0 old in
      (
        λ h. ground (arith, dedup_from-In vs u f),
        λ h. (dedup_from-In vs u f).1 (elim h [
          | inl a ↦ inl a
          | inr (inl e) ↦ inl (subst (λ x. In x u) (sym e) i)
          | inr (inr j) ↦ inr j
        ]),
      ))
  | inr new ↦ rw new (ground (arith, dedup_from-In vs (u ++ v ∷ []) f, In-append_iff f u (v ∷ [])))
]

-- No member twice.
abbrev pub Distinct : List Bytes → Type 0
Distinct [] = Unit
Distinct (v ∷ vs) = ¬ In v vs × Distinct vs

Distinct-snoc : (u : List Bytes) (v : Bytes) → Distinct u → ¬ In v u → Distinct (u ++ v ∷ [])
Distinct-snoc [] v d n = (λ i. elim i [ ], tt)
Distinct-snoc (w ∷ u) v (a, d) n = (
  λ i. elim ((In-append_iff w u (v ∷ [])).0 i) [
    | inl j ↦ a j
    | inr (inl e) ↦ n (inl (sym e))
    | inr (inr j) ↦ elim j [ ]
  ],
  Distinct-snoc u v d (λ j. n (inr j)),
)

dedup_from-Distinct : (vs u : List Bytes) → Distinct u → Distinct (dedup_from u vs)
unfolding dedup_from
dedup_from-Distinct [] u d = d
dedup_from-Distinct (v ∷ vs) u d = elim (Bool-cases (any_equal v u)) [
  | inl old ↦ rw old (dedup_from-Distinct vs u d)
  | inr new ↦ rw new (
      dedup_from-Distinct vs (u ++ v ∷ [])
        (Distinct-snoc u v d (λ i. cc (new, (any_equal-In v u).1 i))))
]

-- The scanned variants are exactly the nonempty forms of the secret, each of them once.
pub secret_variants_complete :
    (codec : Codec) (raw : Bytes)
    → ((f : Bytes)
        → In f (secret_variants codec raw) ↔ (In f (secret_forms codec raw) × (is_empty f ≡ false)))
      × Distinct (secret_variants codec raw)
unfolding secret_variants dedup_bytes
secret_variants_complete codec raw = (
  λ f. ground (
    arith,
    dedup_from-In (retain_nonempty (secret_forms codec raw)) [] f,
    retain-In (secret_forms codec raw) f,
  ),
  dedup_from-Distinct (retain_nonempty (secret_forms codec raw)) [] tt,
)

longest-le : (vs : List Bytes) (v : Bytes) → In v vs → length v ≤ longest vs
unfolding longest
longest-le [] v i = elim i [ ]
longest-le (w ∷ vs) v (inl e) = rw e (ground arith)
longest-le (w ∷ vs) v (inr i) = ground (arith, longest-le vs v i)

-- No form of the secret is longer than the length that the capture layer reckons with.
pub length-le-max_secret_variant_len :
    (codec : Codec) (raw f : Bytes)
    → In f (secret_forms codec raw)
    → length f ≤ max_secret_variant_len codec raw
unfolding max_secret_variant_len is_empty
length-le-max_secret_variant_len codec raw [] i = omega arith
length-le-max_secret_variant_len codec raw (b ∷ f) i =
    longest-le _ (b ∷ f) (((secret_variants_complete codec raw).0 (b ∷ f)).1 (i, refl))
