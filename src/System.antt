-- ===== src/System.antt =====
-- The operating system and the standard library's view of it: what the code asks and does not
-- implement. The answers are those of one moment: that files change between two calls of one
-- command is not modelled, except where an operation of the code changes them.
use kpexec.Prelude.{ℕ, String, Bool, Option, List}
use kpexec.Output.Bytes.{Bytes}

-- A value, or the text of an `io::Error`.
pub data Io (A : Type 0) : Type 0 where
  done : A → Io A
  failed : String → Io A

pub record Metadata : Type 0 where
  pub is_file : Bool
  pub len : ℕ
  pub mtime : Option ℕ
  pub mode : ℕ
  pub uid : ℕ

-- `std::path::Component`; the root and a prefix count as `other`.
pub data Component : Type 0 where
  cur_dir parent_dir : Component
  other : String → Component

pub record System : Type 0 where
  pub is_absolute : String → Bool
  pub canonicalize : String → Io String
  pub current_dir : Io String
  pub components : String → List Component
  -- `PathBuf::push` and `PathBuf::pop`.
  pub push : String → String → String
  pub pop : String → String
  pub metadata : String → Io Metadata
  -- `File::open` succeeds; and what opening and reading the file gives.
  pub opens : String → Bool
  pub read : String → Io Bytes
  -- `Path::ancestors`, the path itself first.
  pub ancestors : String → List String
  -- `CString::new` succeeds.
  pub is_c_string : String → Bool
  -- `access(path, W_OK) == 0`.
  pub access_w : String → Bool
  pub getuid : ℕ
  pub env_var : String → Option String
  -- The SHA-256 digest of the bytes.
  pub sha256 : Bytes → Bytes
