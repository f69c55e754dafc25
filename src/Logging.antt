-- ===== src/Logging.antt =====
-- src/logging.rs: the audit record of a run, and the hash that stands for its arguments.
pub mod Arguments
use kpexec.Prelude.{String, List, [], ◌∷◌, ◌++◌, map}
use kpexec.Output.Bytes.{Bytes}
use kpexec.Output.Variants.{Codec}
use kpexec.System.{System}
use kpexec.Pin.{hex}

-- The bytes that the hasher is fed: the arguments with a zero byte between them.
unfoldable pub joined : List Bytes → Bytes
joined [] = []
joined (arg ∷ []) = arg
joined (arg ∷ next ∷ args) = arg ++ (0 ∷ joined (next ∷ args))

unfoldable pub argv_hash : System → Codec → List String → String
unfolding joined hex
argv_hash sys codec argv = hex (sys.sha256 (joined (map codec.as_bytes argv)))
