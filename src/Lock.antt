-- ===== src/Lock.antt =====
-- src/lock.rs: the write lock of a vault, over the state of its two lock files.
pub mod Exclusion
use Prim.Native.String.{◌++◌ as push_str}
use kpexec.Prelude.{
  ℕ, String, Bool, true, false, not, ◌&&◌, Option, none, some, List, [], ◌∷◌, ◌==◌, if◌then◌else◌,
}
use kpexec.Status.{config_error}
use kpexec.Error.{KpexecError, Result, ok, err, fail, text, number}

-- `str::lines`, `str::strip_prefix`, `str::trim`, the parsing of a `u32` and a `u64`, and the decimal
-- text of a number; `Path::parent`, `Path::file_name`, with its lossy text, and `Path::join`.
pub record LockText : Type 0 where
  pub parent : String → Option String
  pub file_name : String → Option String
  pub join : String → String → String
  pub lines : String → List String
  pub strip_prefix : String → String → Option String
  pub trim : String → String
  pub parse_u32 : String → Option ℕ
  pub parse_u64 : String → Option ℕ
  pub to_string : ℕ → String

pub record LockInfo : Type 0 where
  pub pid : ℕ
  pub start_epoch : ℕ

unfoldable pub path_for : String → String
path_for vault = push_str vault ".kpexec-lock"

abbrev or_else : Option String → String → String
or_else none d = d
or_else (some s) d = s

module _ (t : LockText) where
  unfoldable pub keepassxc_lockfile_for : String → String
  keepassxc_lockfile_for vault =
      t.join (or_else (t.parent vault) ".")
        (push_str "." (push_str (or_else (t.file_name vault) "") ".lockfile"))

  unfoldable pub encode : LockInfo → String
  encode info = push_str "pid=" (
      push_str (t.to_string info.pid)
        (push_str "\nstart_epoch=" (push_str (t.to_string info.start_epoch) "\n")))

  abbrev finished : Option ℕ → Option ℕ → Option LockInfo
  finished none start = none
  finished (some pid) none = some (record { pid = pid; start_epoch = 0 })
  finished (some pid) (some start) = some (record { pid = pid; start_epoch = start })

  -- The loop over the lines: a later line replaces what an earlier one gave, also by nothing.
  unfoldable pub parse_lines : List String → Option ℕ → Option ℕ → Option LockInfo
  parse_lines [] pid start = finished pid start
  parse_lines (line ∷ rest) pid start = elim (t.strip_prefix "pid=" line) [
    | some v ↦ parse_lines rest (t.parse_u32 (t.trim v)) start
    | none ↦ elim (t.strip_prefix "start_epoch=" line) [
      | some v ↦ parse_lines rest pid (t.parse_u64 (t.trim v))
      | none ↦ parse_lines rest pid start
    ]
  ]

  unfoldable pub parse : String → Option LockInfo
  unfolding parse_lines
  parse contents = parse_lines (t.lines contents) none none

-- How `fs::write` ends, with what a failed one leaves of the file.
pub data Write : Type 0 where
  written : Write
  write_failed : String → Option String → Write

-- What a process sees: itself, the time, the living, and whether it can remove and write the file.
pub record Process : Type 0 where
  pub id : ℕ
  pub now : ℕ
  pub alive : ℕ → Bool
  pub removes : Bool
  pub write : Write

-- The lock file of KeePassXC, and the readable contents of that of kpexec.
pub record LockFiles : Type 0 where
  pub keepassxc : Bool
  pub lock : Option String

abbrev pub current : Process → LockInfo
current p = record { pid = p.id; start_epoch = p.now }

abbrev pub with_lock : LockFiles → Option String → LockFiles
with_lock files lock = record { keepassxc = files.keepassxc; lock = lock }

-- `let _ = fs::remove_file(..)`.
abbrev pub removed : Process → LockFiles → LockFiles
removed p files = if p.removes then with_lock files none else files

abbrev pub locked_by : ℕ → KpexecError
locked_by pid = record {
  status = config_error;
  message =
      text "vault is locked by a running kpexec (pid "
      ∷ number pid
      ∷ text "); retry when it finishes"
      ∷ [];
}

module _ (t : LockText) (p : Process) where
  -- The live holder that another process is.
  abbrev pub live_holder : Option LockInfo → Option ℕ
  live_holder none = none
  live_holder (some info) =
      if not (info.pid == p.id) && p.alive info.pid then some info.pid else none

  unfoldable pub holder : Option String → Option ℕ
  unfolding parse
  holder none = none
  holder (some contents) = live_holder (parse t contents)

  abbrev pub reclaimed : LockFiles → Option String → LockFiles
  reclaimed files none = files
  reclaimed files (some _) = removed p files

  abbrev pub write_lock : String → Write → LockFiles → LockFiles × Result (Unit {0})
  write_lock vault written files = (with_lock files (some (encode t (current p))), ok tt)
  write_lock vault (write_failed e left) files = (
    with_lock files left,
    fail config_error
        (text "cannot write vault lock " ∷ text (path_for vault) ∷ text ": " ∷ text e ∷ []),
  )

  abbrev pub unless_held : String → Option ℕ → LockFiles → LockFiles × Result (Unit {0})
  unless_held vault (some pid) files = (files, err (locked_by pid))
  unless_held vault none files = write_lock vault p.write (reclaimed files files.lock)

  -- The new state of the files, and whether the lock is held.
  unfoldable pub acquire : String → LockFiles → LockFiles × Result (Unit {0})
  unfolding holder encode path_for keepassxc_lockfile_for
  acquire vault files =
      if files.keepassxc
      then (
        files,
        fail config_error (
            text "KeePassXC lockfile present ("
            ∷ text (keepassxc_lockfile_for t vault)
            ∷ text "); close KeePassXC before editing the vault"
            ∷ []),
      )
      else unless_held vault (holder files.lock) files

-- `drop`.
unfoldable pub release : Process → LockFiles → LockFiles
release p files = removed p files
