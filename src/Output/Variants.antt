-- ===== src/Output/Variants.antt =====
-- src/output.rs: the byte forms of the secret that redaction looks for.
-- `serde_json` and the UTF-8 test of the standard library are the parameter `Codec`.
pub mod Complete
pub mod RoundTrip
use kpexec.Prelude.{
  String, ℕ, ◌-◌, ◌/◌, ◌%◌, Bool, false, not, ◌&&◌, ◌||◌, Option, none, some, List, [], ◌∷◌, ◌++◌,
  ◌==◌, leb, if◌then◌else◌, length, take, drop, get_or, codes,
}
use kpexec.Output.Bytes.{Bytes, bytes_eq, is_empty}

-- `str::as_bytes`, `str::from_utf8(..).is_ok()`, `String::from_utf8_lossy` and
-- `serde_json::to_string(&str)`, with `none` for its error.
pub record Codec : Type 0 where
  pub as_bytes : String → Bytes
  pub from_utf8 : Bytes → Bool
  pub from_utf8_lossy : Bytes → String
  pub to_string : Bytes → Option Bytes

abbrev unwrap_or_empty : Option Bytes → Bytes
unwrap_or_empty none = []
unwrap_or_empty (some s) = s

-- Without the surrounding quotes, or `raw` where there are none.
unfoldable pub strip_quotes : Bytes → Bytes → Bytes
strip_quotes bytes raw =
    if leb 2 (length bytes) && (get_or bytes 0 0 == 34 && get_or bytes (length bytes - 1) 0 == 34)
    then take (length bytes - 2) (drop 1 bytes)
    else raw

unfoldable pub json_escaped_body : Codec → Bytes → Bytes
unfolding strip_quotes
json_escaped_body codec raw =
    if codec.from_utf8 raw then strip_quotes (unwrap_or_empty (codec.to_string raw)) raw else raw

pub data HexCase : Type 0 where
  upper lower : HexCase

abbrev pub within : ℕ → ℕ → ℕ → Bool
within lo hi b = leb lo b && leb b hi

unfoldable pub is_unreserved : ℕ → Bool
is_unreserved b =
    (within b'a' b'z' b || within b'A' b'Z' b || within b'0' b'9' b)
    || (b == b'-' || b == b'_' || b == b'.' || b == b'~')

unfoldable pub digits : HexCase → Bytes
digits upper = codes "0123456789ABCDEF"
digits lower = codes "0123456789abcdef"

-- `b >> 4` and `b & 0x0f` of a byte.
unfoldable pub percent_encode : Bytes → HexCase → Bytes
unfolding is_unreserved digits
percent_encode [] case = []
percent_encode (b ∷ raw) case =
    let rest = percent_encode raw case in
    if is_unreserved b
    then b ∷ rest
    else b'%' ∷ get_or (digits case) (b / 16) 0 ∷ get_or (digits case) (b % 16) 0 ∷ rest

-- The bytes 39 and 92 are the single quote and the backslash.
unfoldable pub shell_single_quoted_body : Bytes → Bytes
shell_single_quoted_body [] = []
shell_single_quoted_body (b ∷ raw) =
    let rest = shell_single_quoted_body raw in
    if b == 39 then 39 ∷ 92 ∷ 39 ∷ 39 ∷ rest else b ∷ rest

abbrev pub byte_in : ℕ → Bytes → Bool
byte_in b [] = false
byte_in b (c ∷ cs) = b == c || byte_in b cs

-- Space, tab, newline and the metacharacters, in the order of `SPECIAL`.
unfoldable pub special : Bytes
special = 32 ∷ 9 ∷ 10 ∷ 34 ∷ 39 ∷ 92 ∷ codes "$`!*?[]{}()<>|&;#~=%^"

unfoldable pub shell_backslash_escaped : Bytes → Bytes
shell_backslash_escaped [] = []
shell_backslash_escaped (b ∷ raw) =
    let rest = shell_backslash_escaped raw in if byte_in b special then 92 ∷ b ∷ rest else b ∷ rest

-- The `push` calls of `secret_variants`, in order.
unfoldable pub secret_forms : Codec → Bytes → List Bytes
unfolding json_escaped_body percent_encode shell_single_quoted_body shell_backslash_escaped special
secret_forms codec raw =
    raw
    ∷ json_escaped_body codec raw
    ∷ percent_encode raw upper
    ∷ percent_encode raw lower
    ∷ shell_single_quoted_body raw
    ∷ shell_backslash_escaped raw
    ∷ []

-- `variants.retain(|v| !v.is_empty())`.
unfoldable pub retain_nonempty : List Bytes → List Bytes
unfolding is_empty
retain_nonempty [] = []
retain_nonempty (v ∷ vs) = if not (is_empty v) then v ∷ retain_nonempty vs else retain_nonempty vs

unfoldable pub any_equal : Bytes → List Bytes → Bool
unfolding bytes_eq
any_equal v [] = false
any_equal v (seen ∷ unique) = bytes_eq seen v || any_equal v unique

unfoldable pub dedup_from : List Bytes → List Bytes → List Bytes
unfolding any_equal
dedup_from unique [] = unique
dedup_from unique (v ∷ vs) = dedup_from (if any_equal v unique then unique else unique ++ v ∷ []) vs

unfoldable pub dedup_bytes : List Bytes → List Bytes
unfolding dedup_from
dedup_bytes variants = dedup_from [] variants

unfoldable pub secret_variants : Codec → Bytes → List Bytes
unfolding secret_forms retain_nonempty dedup_bytes
secret_variants codec raw = dedup_bytes (retain_nonempty (secret_forms codec raw))

abbrev pub max_of : ℕ → ℕ → ℕ
max_of a b = if leb a b then b else a

unfoldable pub longest : List Bytes → ℕ
longest [] = 0
longest (v ∷ vs) = max_of (length v) (longest vs)

unfoldable pub max_secret_variant_len : Codec → Bytes → ℕ
unfolding secret_variants longest
max_secret_variant_len codec raw = longest (secret_variants codec raw)
