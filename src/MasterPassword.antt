-- ===== src/MasterPassword.antt =====
-- src/masterpw.rs: the generation of a vault password from the draws of a random source.
pub mod Draws
use Prim.Native.Char.{Char}
use kpexec.Prelude.{
  ℕ, zero, suc, ◌+◌, ◌-◌, ◌%◌, ◌*◌, ◌≤◌, String, Bool, true, false, Option, none, some, List, [],
  ◌∷◌, length, ltb, if◌then◌else◌, map,
}
use kpexec.Secret.{Secret}

abbrev pub alphabet : String
alphabet = "ABCDEFGHJKLMNPQRSTUVWXYZabcdefghijkmnopqrstuvwxyz23456789"

abbrev pub chars_of : String → List Char
chars_of String.[] = []
chars_of (String.◌∷◌ c s) = c ∷ chars_of s

-- `ALPHABET.len()`.
unfoldable pub alpha_len : ℕ
alpha_len = length (chars_of alphabet)

abbrev pub password_length : ℕ
password_length = 32

abbrev pub u32_max : ℕ
u32_max = 4294967295

unfoldable pub limit : ℕ
unfolding alpha_len
limit = u32_max - u32_max % alpha_len

abbrev pub letter_at : List Char → ℕ → Option Char
letter_at [] i = none
letter_at (c ∷ cs) zero = some c
letter_at (c ∷ cs) (suc i) = letter_at cs i

abbrev pub onto : ℕ → Option (List ℕ) → Option (List ℕ)
onto i none = none
onto i (some is) = some (i ∷ is)

-- `ALPHABET[idx]`; an index out of range would stop the program.
abbrev pub push : Option Char → String → String
push none out = out
push (some c) out = String.◌∷◌ c out

-- What the loop adds to `out`, in its order, while `missing` characters are. Each round takes one draw, and
-- without a draw the loop would wait for the source: this is `none`.
unfoldable pub generate_from : ℕ → List ℕ → Option (List ℕ)
unfolding limit alpha_len
generate_from zero draws = some []
generate_from (suc missing) [] = none
generate_from (suc missing) (n ∷ draws) =
    let kept = generate_from missing draws in
    let again = generate_from (suc missing) draws in
    if ltb n limit then onto (n % alpha_len) kept else again

abbrev pub text_of : List ℕ → String
text_of [] = String.[]
text_of (i ∷ is) = push (letter_at (chars_of alphabet) i) (text_of is)

abbrev pub secret_of : List ℕ → Secret
secret_of indices = record { expose = text_of indices }

abbrev pub secret_from : Option (List ℕ) → Option Secret
secret_from none = none
secret_from (some indices) = some (secret_of indices)

unfoldable pub generate : List ℕ → Option Secret
generate draws = secret_from (generate_from password_length draws)
