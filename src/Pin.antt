-- ===== src/Pin.antt =====
-- src/pin.rs: canonicalization, hashing, and the immutability that a pin needs.
use Prim.Native.Char.{Char}
use kpexec.Prelude.{
  ℕ, zero, suc, ◌+◌, ◌/◌, ◌%◌, String, Bool, true, false, ◌||◌, Option, List, [], ◌∷◌, ◌++◌, ◌==◌,
  if◌then◌else◌, codes, leb, ◌&&◌, map,
}
use kpexec.Status.{malformed_policy}
use kpexec.Error.{Result, ok, fail, ◌>>=◌, ◌>>◌, Message, text}
use kpexec.Output.Bytes.{Bytes, bytes_eq}
use kpexec.System.{System, Metadata, Io, done, failed}

pub record Pin : Type 0 where
  pub canonical : String
  pub sha256 : String
  pub size : ℕ
  pub mtime : Option ℕ

abbrev nth : String → ℕ → Char → Char
nth String.[] n d = d
nth (String.◌∷◌ c s) zero d = c
nth (String.◌∷◌ c s) (suc n) d = nth s n d

abbrev hex_digit : ℕ → Char
hex_digit n = nth "0123456789abcdef" n "0"

-- `{b:02x}` for each byte.
unfoldable pub hex : Bytes → String
hex [] = String.[]
hex (b ∷ bytes) = String.◌∷◌ (hex_digit (b / 16)) (String.◌∷◌ (hex_digit (b % 16)) (hex bytes))

abbrev to_ascii_lowercase : ℕ → ℕ
to_ascii_lowercase b = if leb b'A' b && leb b b'Z' then b + 32 else b

-- `str::eq_ignore_ascii_case`.
unfoldable pub eq_ignore_ascii_case : String → String → Bool
unfolding bytes_eq
eq_ignore_ascii_case s t =
    bytes_eq (map to_ascii_lowercase (codes s)) (map to_ascii_lowercase (codes t))

-- `map_err` to a malformed policy: the message, then the reason of the system.
abbrev pub or_reject : {A : Type 0} → Io A → Message → Result A
or_reject (done a) before = ok a
or_reject (failed e) before = fail malformed_policy (before ++ (text ": " ∷ text e ∷ []))

abbrev pub guard : Bool → Message → Result (Unit {0})
guard true m = ok tt
guard false m = fail malformed_policy m

-- A path is mutable if the user owns it or may write it; a failed `stat` does not count as owned.
abbrev owned_by : ℕ → Io Metadata → Bool
owned_by uid (done meta) = meta.uid == uid
owned_by uid (failed _) = false

abbrev pub any_path : (String → Bool) → List String → Bool
any_path p [] = false
any_path p (x ∷ xs) = p x || any_path p xs

module _ (sys : System) where
  unfoldable pub compute : String → Result Pin
  unfolding hex
  compute exe = do
    guard (sys.is_absolute exe) (text "executable path must be absolute: " ∷ text exe ∷ [])
    canonical ← or_reject (sys.canonicalize exe) (text "cannot canonicalize " ∷ text exe ∷ [])
    meta ← or_reject (sys.metadata canonical) (text "cannot stat " ∷ text canonical ∷ [])
    guard meta.is_file (text canonical ∷ text " is not a regular file" ∷ [])
    bytes ← or_reject (sys.read canonical) (text "cannot read " ∷ text canonical ∷ [])
    ok (record {
      canonical = canonical;
      sha256 = hex (sys.sha256 bytes);
      size = meta.len;
      mtime = meta.mtime;
    })

  unfoldable pub is_current : String → String → Result Bool
  unfolding compute eq_ignore_ascii_case
  is_current exe recorded = do pin ← compute exe; ok (eq_ignore_ascii_case pin.sha256 recorded)

  -- The test of one ancestor.
  abbrev pub mutable_path : String → Bool
  mutable_path path =
      if owned_by sys.getuid (sys.metadata path)
      then true
      else if sys.is_c_string path
      then sys.access_w path
      else true

  unfoldable pub is_mutable_by_current_user : String → Bool
  is_mutable_by_current_user canonical = any_path mutable_path (sys.ancestors canonical)

  unfoldable pub require_enforceable : String → Result (Unit {0})
  unfolding is_mutable_by_current_user
  require_enforceable canonical =
      if is_mutable_by_current_user canonical
      then fail malformed_policy (
          text "pinned executable "
          ∷ text canonical
          ∷ text
              " is writable or replaceable by the current user, so its pin cannot be enforced without a hash-to-exec race; install it under an admin-owned immutable path or explicitly author the command with --no-pin"
          ∷ [])
      else ok tt
