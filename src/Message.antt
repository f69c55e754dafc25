-- ===== src/Message.antt =====
-- The strings that the formatting macros build are kept in pieces: literal text and displayed values,
-- values shown by `{:?}`, and numbers.
use kpexec.Prelude.{ℕ, String, List}

pub data Piece : Type 0 where
  text debug : String → Piece
  number : ℕ → Piece

abbrev pub Message : Type 0
Message = List Piece
