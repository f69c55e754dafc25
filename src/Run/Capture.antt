-- ===== src/Run/Capture.antt =====
-- src/cmd_run.rs: the bounded capture of the child's output.
pub mod Limit
use kpexec.Prelude.{
  ℕ, zero, suc, ◌+◌, ◌-◌, ◌*◌, ◌/◌, ◌^◌, min, ◌≤◌, ◌≡◌, refl, List, [], ◌∷◌, ◌++◌, arith, ◌==◌, ltb,
  if◌then◌else◌, length, take, take_all, length-append, length-take, append_assoc, append-nil, ap,
  sym, ◌∙◌,
}
use native.Mathlib.Decide.{dec_le}
use native.Mathlib.Nat.{le_refl}
use kpexec.Output.Bytes.{Bytes}
use kpexec.Output.Truncate.{marker_len}

-- `usize::MAX` of a 64-bit target.
abbrev pub usize_max : ℕ
usize_max = 2 ^ 64 - 1

abbrev pub saturating_add : ℕ → ℕ → ℕ
saturating_add a b = min (a + b) usize_max

abbrev pub saturating_mul : ℕ → ℕ → ℕ
saturating_mul a b = min (a * b) usize_max

-- `div_ceil` for a positive divisor.
abbrev pub div_ceil : ℕ → ℕ → ℕ
div_ceil a b = (a + (b - 1)) / b

unfoldable pub capture_limit : ℕ → ℕ → ℕ
capture_limit policy_cap max_variant_len =
    if max_variant_len == 0
    then saturating_add policy_cap 1
    else if ltb marker_len max_variant_len
    then (let wanted = saturating_add policy_cap 1 in
        let matches = div_ceil wanted marker_len in
        saturating_add (saturating_mul matches max_variant_len) (max_variant_len - 1))
    else saturating_add policy_cap max_variant_len

-- The loop of a reader thread over the chunks that `read` returns: an empty one, or a failed read,
-- after which there is none, ends it.
unfoldable pub read_all : ℕ → Bytes → List Bytes → Bytes
read_all limit retained [] = retained
read_all limit retained ([] ∷ chunks) = retained
read_all limit retained ((b ∷ bs) ∷ chunks) =
    let chunk = b ∷ bs in
    read_all limit (retained ++ take (min (length chunk) (limit - length retained)) chunk) chunks

unfoldable pub spawn_reader : ℕ → List Bytes → Bytes
unfolding read_all
spawn_reader limit chunks = read_all limit [] chunks

-- The bytes of the stream, up to where it ends.
pub stream : List Bytes → Bytes
stream [] = []
stream ([] ∷ chunks) = []
stream ((b ∷ bs) ∷ chunks) = (b ∷ bs) ++ stream chunks

take-min : (m : ℕ) (c : Bytes) → take (min (length c) m) c ≡ take m c
take-min m c = elim (dec_le (length c) m) [
  | yes p ↦
      let e : min (length c) m ≡ length c = omega arith in
      rw e (take_all (length c) c (le_refl _) ∙ sym (take_all m c p))
  | no p ↦ let e : min (length c) m ≡ m = omega arith in rw e
]

take-append_split :
    (m : ℕ) (c rest : Bytes) → take m (c ++ rest) ≡ take m c ++ take (m - length c) rest
take-append_split zero [] rest = refl
take-append_split zero (b ∷ c) rest = let e : 0 - suc (length c) ≡ 0 = omega arith in rw e
take-append_split (suc m) [] rest = let e : suc m - 0 ≡ suc m = omega arith in rw e
take-append_split (suc m) (b ∷ c) rest =
    let e : suc m - suc (length c) ≡ m - length c = omega arith in
    rw e (ap (λ t. b ∷ t) (take-append_split m c rest))

take-nil : (n : ℕ) → ◌≡◌ {A = Bytes} (take n []) []
take-nil zero = refl
take-nil (suc n) = refl

read_all-take :
    (limit : ℕ) (chunks : List Bytes) (retained : Bytes)
    → length retained ≤ limit
    → read_all limit retained chunks ≡ retained ++ take (limit - length retained) (stream chunks)
unfolding read_all stream
read_all-take limit [] retained h =
    rw (take-nil (limit - length retained)) (sym (append-nil retained))
read_all-take limit ([] ∷ chunks) retained h =
    rw (take-nil (limit - length retained)) (sym (append-nil retained))
read_all-take limit ((b ∷ bs) ∷ chunks) retained h =
    let m = limit - length retained in
    let kept = take (min (length (b ∷ bs)) m) (b ∷ bs) in
    let size : length (retained ++ kept) ≡ length retained + min m (length (b ∷ bs)) =
      omega (arith, length-append retained kept, length-take (min (length (b ∷ bs)) m) (b ∷ bs)) in
    let left : limit - length (retained ++ kept) ≡ m - length (b ∷ bs) = omega (arith, size) in
    read_all-take limit chunks (retained ++ kept) (omega (arith, size))
    ∙ (append_assoc retained kept _
        ∙ ap (λ t. retained ++ t)
            (ap (λ t. t ++ take (limit - length (retained ++ kept)) (stream chunks))
                (take-min m (b ∷ bs))
              ∙ ap (λ k. take m (b ∷ bs) ++ take k (stream chunks)) left
              ∙ sym (take-append_split m (b ∷ bs) (stream chunks))))

-- A reader keeps the first `limit` bytes of the stream, however it is cut into chunks.
pub spawn_reader-take :
    (limit : ℕ) (chunks : List Bytes) → spawn_reader limit chunks ≡ take limit (stream chunks)
unfolding spawn_reader
spawn_reader-take limit chunks =
    let whole : limit - 0 ≡ limit = omega arith in
    rw whole at (read_all-take limit chunks [] (omega arith))
