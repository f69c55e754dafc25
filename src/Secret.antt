-- ===== src/Secret.antt =====
-- src/secret.rs: a secret, which nothing shows but `expose`. That its memory is wiped on drop is not
-- modelled.
use kpexec.Prelude.{String}

pub record Secret : Type 0 where
  pub expose : String
