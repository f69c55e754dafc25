-- ===== src/Commands/Prompt.antt =====
-- src/commands.rs: what the authorization prompt can be made to show.
use Prim.Native.Char.{Char}
use Prim.Native.String.append
use Prim.Native.String.{◌++◌ as push_str}
use kpexec.Prelude.{
  ℕ, zero, suc, ◌+◌, ◌≤◌, ◌≡◌, refl, inl, inr, String, Bool, true, ◌||◌, arith, ltb, Bool-cases,
  min,
}
use kpexec.Commands.{max_chars, one_of, chars_count, safe_char, take_safe, prompt_safe}

-- Every character of the text is alphanumeric, or one of the punctuation marks of the list.
abbrev pub Plain : (Char → Bool) → String → Type 0
Plain is_alphanumeric String.[] = Unit
Plain is_alphanumeric (String.◌∷◌ c s) =
    ((is_alphanumeric c || one_of " -_./:@?…" c) ≡ true) × Plain is_alphanumeric s

chars_count-push_str : (s t : String) → chars_count (push_str s t) ≡ chars_count s + chars_count t
unfolding chars_count
chars_count-push_str String.[] t = rw (append.nil t) (omega arith)
chars_count-push_str (String.◌∷◌ c s) t =
    rw (append.cons c s t) (omega (arith, chars_count-push_str s t))

chars_count-ellipsis : chars_count "…" ≡ 1
unfolding chars_count
chars_count-ellipsis = refl

module _ (is_alphanumeric : Char → Bool) where
  Plain-push_str :
      (s t : String)
      → Plain is_alphanumeric s
      → Plain is_alphanumeric t
      → Plain is_alphanumeric (push_str s t)
  Plain-push_str String.[] t p q = rw (append.nil t) q
  Plain-push_str (String.◌∷◌ c s) t (k, p) q = rw (append.cons c s t) (k, Plain-push_str s t p q)

  chars_count-take_safe :
      (n : ℕ) (s : String) → chars_count (take_safe is_alphanumeric n s) ≡ min n (chars_count s)
  unfolding take_safe chars_count
  chars_count-take_safe zero s = omega arith
  chars_count-take_safe (suc n) String.[] = omega arith
  chars_count-take_safe (suc n) (String.◌∷◌ c s) = omega (arith, chars_count-take_safe n s)

  safe_char_plain :
      (c : Char)
      → (is_alphanumeric (safe_char is_alphanumeric c)
          || one_of " -_./:@?…" (safe_char is_alphanumeric c))
        ≡ true
  unfolding safe_char
  safe_char_plain c = elim (Bool-cases (is_alphanumeric c || one_of " -_./:@" c)) [
    | inl keep ↦ rw keep (ground arith)
    | inr mask ↦ rw mask (ground arith)
  ]

  Plain-take_safe : (n : ℕ) (s : String) → Plain is_alphanumeric (take_safe is_alphanumeric n s)
  unfolding take_safe
  Plain-take_safe zero s = tt
  Plain-take_safe (suc n) String.[] = tt
  Plain-take_safe (suc n) (String.◌∷◌ c s) = (safe_char_plain c, Plain-take_safe n s)

  -- Whatever the value, at most 97 characters of it are shown, and each of them is alphanumeric, a
  -- space, one of -_./:@, or the question mark and the ellipsis that stand for what is left out: no
  -- line break and no control character.
  pub prompt_safe_bounds :
      (value : String)
      → (chars_count (prompt_safe is_alphanumeric value) ≤ 97)
        × Plain is_alphanumeric (prompt_safe is_alphanumeric value)
  unfolding prompt_safe
  prompt_safe_bounds value = elim (Bool-cases (ltb max_chars (chars_count value))) [
    | inr short ↦
        rw short
          (omega (arith, chars_count-take_safe max_chars value), Plain-take_safe max_chars value)
    | inl long ↦ rw long (
      omega (
        arith,
        chars_count-push_str (take_safe is_alphanumeric max_chars value) "…",
        chars_count-ellipsis,
        chars_count-take_safe max_chars value,
      ),
      Plain-push_str (take_safe is_alphanumeric max_chars value) "…"
          (Plain-take_safe max_chars value) (ground arith, tt),
    )
  ]
