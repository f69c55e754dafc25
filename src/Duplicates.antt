-- ===== src/Duplicates.antt =====
-- The names that occur more than once in a list, as src/policy.rs and src/vault.rs count them.
-- The `BTreeMap` of counts is a list of pairs in the order of first occurrence; the key order in which
-- it is iterated is that of `in_order`, applied to the names that are left.
use Prim.Native.String.{compare}
use Prim.Native.Nat.{Ordering}
use kpexec.Prelude.{
  ℕ, suc, ◌+◌, ◌<◌, ◌≡◌, ◌↔◌, refl, String, List, [], ◌∷◌, arith, ltb, str_eq, str_eq_iff,
  if◌then◌else◌, In, subst,
}

-- `*seen.entry(key).or_insert(0) += 1`.
unfoldable pub bump : String → List (String × ℕ) → List (String × ℕ)
bump key [] = (key, 1) ∷ []
bump key ((j, n) ∷ seen) = if str_eq j key then (j, n + 1) ∷ seen else (j, n) ∷ bump key seen

unfoldable pub count_all : List (String × ℕ) → List String → List (String × ℕ)
unfolding bump
count_all seen [] = seen
count_all seen (key ∷ keys) = count_all (bump key seen) keys

-- `filter(|(_, n)| *n > 1)` and `map(|(name, _)| name)`.
unfoldable pub repeated : List (String × ℕ) → List String
repeated [] = []
repeated ((key, n) ∷ seen) = if ltb 1 n then key ∷ repeated seen else repeated seen

-- A name into a list in key order.
unfoldable pub insert : String → List String → List String
insert key [] = key ∷ []
insert key (j ∷ keys) =
    let later = j ∷ insert key keys in
    elim (compare key j) [ Ordering.lt ↦ key ∷ j ∷ keys | _ ↦ later ]

unfoldable pub in_order : List String → List String
unfolding insert
in_order [] = []
in_order (key ∷ keys) = insert key (in_order keys)

unfoldable pub duplicates : List String → List String
unfolding count_all repeated in_order
duplicates keys = in_order (repeated (count_all [] keys))

-- How often a name occurs.
unfoldable pub count : String → List String → ℕ
count key [] = 0
count key (k ∷ keys) = if str_eq k key then suc (count key keys) else count key keys

total : String → List (String × ℕ) → ℕ
total key [] = 0
total key ((j, n) ∷ seen) = if str_eq j key then n + total key seen else total key seen

-- No key twice.
Keyed : List (String × ℕ) → Type 0
Keyed [] = Unit
Keyed ((j, n) ∷ seen) = (total j seen ≡ 0) × (0 < n) × Keyed seen

total-bump :
    (key k : String) (seen : List (String × ℕ))
    → total key (bump k seen) ≡ (if str_eq k key then suc (total key seen) else total key seen)
unfolding total bump
total-bump key k [] = ground (arith, str_eq_iff k key)
total-bump key k ((j, n) ∷ seen) =
    ground (arith, str_eq_iff k key, str_eq_iff j key, str_eq_iff j k, total-bump key k seen)

bump-Keyed : (k : String) (seen : List (String × ℕ)) → Keyed seen → Keyed (bump k seen)
unfolding Keyed bump total
bump-Keyed k [] h = (refl, omega arith, tt)
bump-Keyed k ((j, n) ∷ seen) (a, b, c) =
    ground (arith, str_eq_iff j k, str_eq_iff k j, bump-Keyed k seen c, total-bump j k seen)

count_all-Keyed :
    (keys : List String) (seen : List (String × ℕ)) → Keyed seen → Keyed (count_all seen keys)
unfolding count_all
count_all-Keyed [] seen h = h
count_all-Keyed (k ∷ keys) seen h = count_all-Keyed keys (bump k seen) (bump-Keyed k seen h)

total-count_all :
    (key : String) (keys : List String) (seen : List (String × ℕ))
    → total key (count_all seen keys) ≡ total key seen + count key keys
unfolding count_all count
total-count_all key [] seen = omega arith
total-count_all key (k ∷ keys) seen =
    ground (arith, total-count_all key keys (bump k seen), total-bump key k seen)

repeated-In :
    (key : String) (seen : List (String × ℕ))
    → Keyed seen
    → (In key (repeated seen) → 1 < total key seen) × (1 < total key seen → In key (repeated seen))
unfolding Keyed repeated total
repeated-In key [] h = (λ i. elim i [ ], λ lt. absurd (omega arith))
repeated-In key ((j, n) ∷ seen) (a, b, c) = ground (arith, str_eq_iff j key, repeated-In key seen c)

placed-In :
    (x key j : String) (keys later : List String) (o : Ordering)
    → In x later ↔ In x (key ∷ keys)
    → In x (elim o as (λ _. List String) [ Ordering.lt ↦ key ∷ j ∷ keys | _ ↦ j ∷ later ])
      ↔ In x (key ∷ j ∷ keys)
placed-In x key j keys later Ordering.lt h = (λ i. i, λ i. i)
placed-In x key j keys later Ordering.eq h = ground (arith, h)
placed-In x key j keys later Ordering.gt h = ground (arith, h)

insert-In : (x key : String) (keys : List String) → In x (insert key keys) ↔ In x (key ∷ keys)
unfolding insert
insert-In x key [] = (λ i. i, λ i. i)
insert-In x key (j ∷ keys) =
    placed-In x key j keys (insert key keys) (compare key j) (insert-In x key keys)

in_order-In : (x : String) (keys : List String) → In x (in_order keys) ↔ In x keys
unfolding in_order
in_order-In x [] = (λ i. i, λ i. i)
in_order-In x (key ∷ keys) = ground (arith, insert-In x key (in_order keys), in_order-In x keys)

-- A name is reported exactly if it occurs at least twice.
pub duplicates-In :
    (key : String) (keys : List String) → In key (duplicates keys) ↔ (1 < count key keys)
unfolding duplicates total Keyed
duplicates-In key keys =
    let same : total key (count_all [] keys) ≡ count key keys =
      omega (arith, total-count_all key keys []) in
    let sorted = in_order-In key (repeated (count_all [] keys)) in
    let (there, back) =
      subst (λ n. In key (repeated (count_all [] keys)) ↔ (1 < n)) same
        (repeated-In key (count_all [] keys) (count_all-Keyed keys [] tt)) in
    (λ i. there (sorted.0 i), λ lt. sorted.1 (back lt))
