-- ===== src/Tests/Locks.antt =====
-- Applications of the theorems on src/lock.rs.
use Prim.Native.Char.{Char}
use Prim.Native.String.{◌++◌ as push_str}
use kpexec.Prelude.{
  ℕ, ◌≡◌, ◌↔◌, refl, String, true, false, Option, none, some, List, [], ◌∷◌, str_eq, if◌then◌else◌,
  ◌==◌, arith,
}
use kpexec.Status.{config_error}
use kpexec.Error.{KpexecError, ok, err}
use kpexec.Lock.{LockText, Process, LockFiles, written, encode, acquire, current}
use kpexec.Lock.Exclusion.{Readable, HeldByOther, acquire_iff, acquire_excludes}

-- The rest of a text behind a prefix.
abbrev behind : String → String → Option String
behind String.[] s = some s
behind (String.◌∷◌ c prefix) String.[] = none
behind (String.◌∷◌ c prefix) (String.◌∷◌ d s) =
    let rest = behind prefix s in
    if str_eq (String.◌∷◌ c String.[]) (String.◌∷◌ d String.[]) then rest else none

abbrev onto_line : Char → List String → List String
onto_line c [] = String.◌∷◌ c String.[] ∷ []
onto_line c (line ∷ lines) = String.◌∷◌ c line ∷ lines

abbrev lines_of : String → List String
lines_of String.[] = []
lines_of (String.◌∷◌ c s) =
    let rest = lines_of s in
    if str_eq (String.◌∷◌ c String.[]) "\n" then String.[] ∷ rest else onto_line c rest

-- Numbers of one digit.
abbrev digit_of : String → Option ℕ
digit_of s =
    if str_eq s "7"
    then some 7
    else if str_eq s "3"
    then some 3
    else if str_eq s "1"
    then some 1
    else none

abbrev of_digit : ℕ → String
of_digit n = if n == 7 then "7" else if n == 3 then "3" else "1"

abbrev sample_text : LockText
sample_text = record {
  parent = λ _. some "/vaults";
  file_name = λ _. some "v.kdbx";
  join = λ dir name. push_str dir (push_str "/" name);
  lines = lines_of;
  strip_prefix = behind;
  trim = λ s. s;
  parse_u32 = digit_of;
  parse_u64 = digit_of;
  to_string = of_digit;
}

-- A process that everyone sees alive, and that can remove and write files.
abbrev process_of : ℕ → Process
process_of id = record { id = id; now = 3; alive = λ _. true; removes = true; write = written }

abbrev no_files : LockFiles
no_files = record { keepassxc = false; lock = none }

-- The lock file of a process that still lives.
abbrev held_files : LockFiles
held_files = record { keepassxc = false; lock = some (encode sample_text (current (process_of 7))) }

acquire_iff_example :
    ((acquire sample_text (process_of 1) "/vaults/v.kdbx" held_files).1 ≡ ok tt) ↔ (
      (false ≡ false)
      × (HeldByOther sample_text (process_of 1) held_files.lock → ⊥)
      × (written ≡ written))
acquire_iff_example = acquire_iff sample_text (process_of 1) "/vaults/v.kdbx" held_files

is_Readable : Readable sample_text (current (process_of 7))
unfolding encode
is_Readable = (refl, refl, refl, refl, refl, refl)

acquire_excludes_example :
    (e : KpexecError) × (acquire sample_text
        (process_of 1)
        "/vaults/v.kdbx"
        (acquire sample_text (process_of 7) "/vaults/v.kdbx" no_files).0
      ≡ ((acquire sample_text (process_of 7) "/vaults/v.kdbx" no_files).0, err e))
    × (e.status ≡ config_error)
unfolding acquire
acquire_excludes_example =
    acquire_excludes sample_text (process_of 7) (process_of 1) "/vaults/v.kdbx" no_files is_Readable
      refl (λ h. omega (arith, h)) refl
