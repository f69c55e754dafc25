-- ===== src/Output/Variants/RoundTrip.antt =====
-- The encodings of src/output.rs, read back by decoders that are written down independently.
use kpexec.Prelude.{
  ℕ, zero, suc, ◌+◌, ◌-◌, ◌*◌, ◌/◌, ◌%◌, ◌<◌, ◌≡◌, refl, Bool, true, false, [], ◌∷◌, arith, ◌==◌,
  ap, inl, inr, if◌then◌else◌, get_or, All, Bool-cases, leb,
}
use kpexec.Output.Bytes.{Bytes}
use kpexec.Output.Variants.{
  HexCase, upper, lower, digits, is_unreserved, percent_encode, shell_single_quoted_body, byte_in,
  special, shell_backslash_escaped,
}

-- The value of a hexadecimal digit of either case.
unhex : ℕ → ℕ
unhex c = if leb c b'9' then c - b'0' else if leb c b'F' then c - 55 else c - 87

-- A percent decoder: nothing pending, a percent sign read, or one digit read as well.
pub data Pending : Type 0 where
  plain high : Pending
  low : ℕ → Pending

pub percent_decode : Pending → Bytes → Bytes
percent_decode _ [] = []
percent_decode plain (b ∷ s) =
    let escape = percent_decode high s in
    let same = b ∷ percent_decode plain s in if b == b'%' then escape else same
percent_decode high (h ∷ s) = percent_decode (low (unhex h)) s
percent_decode (low n) (l ∷ s) = (n * 16 + unhex l) ∷ percent_decode plain s

-- The test passes at each number under the bound.
tested : (ℕ → Bool) → ℕ → Bool
tested test zero = true
tested test (suc bound) = if test bound then tested test bound else false

tested-lt : (test : ℕ → Bool) (bound i : ℕ) → tested test bound ≡ true → i < bound → test i ≡ true
unfolding tested
tested-lt test zero i passed below = elim below [ ]
tested-lt test (suc bound) i passed below = ground (arith, tested-lt test bound i)

eq_of_test : (a b : ℕ) → (a == b) ≡ true → a ≡ b
eq_of_test a b h = ground arith

reads : HexCase → ℕ → Bool
unfolding unhex digits
reads case n = unhex (get_or (digits case) n 0) == n

reads_table : (case : HexCase) → tested (reads case) 16 ≡ true
unfolding tested reads
reads_table upper = refl
reads_table lower = refl

unhex-digits : (case : HexCase) (n : ℕ) → n < 16 → unhex (get_or (digits case) n 0) ≡ n
unfolding reads
unhex-digits case n h = eq_of_test _ n (tested-lt (reads case) 16 n (reads_table case) h)

percent_reserved : (b : ℕ) → is_unreserved b ≡ true → (b == b'%') ≡ false
unfolding is_unreserved
percent_reserved b h = ground arith

halves : (b : ℕ) (raw : Bytes) → (b / 16 * 16 + b % 16) ∷ raw ≡ b ∷ raw
halves b raw = ap (λ x. x ∷ raw) (omega arith)

-- Percent-encoding in either case loses nothing of a byte string.
pub percent_decode-percent_encode :
    (raw : Bytes) (case : HexCase)
    → All (λ b. b < 256) raw
    → percent_decode plain (percent_encode raw case) ≡ raw
unfolding percent_encode percent_decode
percent_decode-percent_encode [] case h = refl
percent_decode-percent_encode (b ∷ raw) case (k, h) = elim (Bool-cases (is_unreserved b)) [
  | inl keep ↦ rw (keep, percent_reserved b keep, percent_decode-percent_encode raw case h)
  | inr escape ↦ rw escape (
      rw
        (
          unhex-digits case (b / 16) (omega arith),
          unhex-digits case (b % 16) (omega arith),
          percent_decode-percent_encode raw case h,
        )
        (halves b raw))
]

-- The shell inside single quotes, outside of them, and behind a backslash there.
pub data Quoting : Type 0 where
  quoted unquoted escaped : Quoting

pub read_shell : Quoting → Bytes → Bytes
read_shell _ [] = []
read_shell quoted (b ∷ s) =
    let close = read_shell unquoted s in
    let same = b ∷ read_shell quoted s in if b == 39 then close else same
read_shell unquoted (b ∷ s) =
    let reopen = read_shell quoted s in
    let escape = read_shell escaped s in
    let same = b ∷ read_shell unquoted s in
    if b == 39 then reopen else if b == 92 then escape else same
read_shell escaped (b ∷ s) = b ∷ read_shell unquoted s

-- Between single quotes the shell reads the quoted body back as the secret.
pub read_shell-shell_single_quoted_body :
    (raw : Bytes) → read_shell quoted (shell_single_quoted_body raw) ≡ raw
unfolding read_shell shell_single_quoted_body
read_shell-shell_single_quoted_body [] = refl
read_shell-shell_single_quoted_body (b ∷ raw) =
    ground (arith, read_shell-shell_single_quoted_body raw)

unspecial : (b : ℕ) → byte_in b special ≡ false → ((b == 39) ≡ false) × ((b == 92) ≡ false)
unfolding special
unspecial b h = ground arith

-- Outside of quotes the shell reads the escaped form back as the secret.
pub read_shell-shell_backslash_escaped :
    (raw : Bytes) → read_shell unquoted (shell_backslash_escaped raw) ≡ raw
unfolding read_shell shell_backslash_escaped
read_shell-shell_backslash_escaped [] = refl
read_shell-shell_backslash_escaped (b ∷ raw) = elim (Bool-cases (byte_in b special)) [
  | inl mark ↦ rw (mark, read_shell-shell_backslash_escaped raw)
  | inr same ↦
      rw (same, (unspecial b same).0, (unspecial b same).1, read_shell-shell_backslash_escaped raw)
]
