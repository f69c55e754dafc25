-- ===== src/Logging/Arguments.antt =====
-- src/logging.rs: the bytes that are hashed tell the arguments apart.
use kpexec.Prelude.{
  ℕ, ◌==◌, ◌≡◌, refl, false, List, [], ◌∷◌, ◌++◌, if◌then◌else◌, All, ap, sym, ◌∙◌,
}
use kpexec.Output.Bytes.{Bytes}
use kpexec.Logging.{joined}

-- A byte that an argument of a process can have.
abbrev pub NonZero : ℕ → Type 0
NonZero b = (b == 0) ≡ false

abbrev onto_first : ℕ → List Bytes → List Bytes
onto_first b [] = []
onto_first b (arg ∷ args) = (b ∷ arg) ∷ args

-- The arguments, read back at the zero bytes.
split : Bytes → List Bytes
split [] = [] ∷ []
split (b ∷ s) = let rest = split s in if b == 0 then [] ∷ rest else onto_first b rest

split-last : (arg : Bytes) → All NonZero arg → split arg ≡ arg ∷ []
unfolding split
split-last [] h = refl
split-last (b ∷ arg) (k, h) = rw (k, split-last arg h)

split-append : (arg t : Bytes) → All NonZero arg → split (arg ++ (0 ∷ t)) ≡ arg ∷ split t
unfolding split
split-append [] t h = refl
split-append (b ∷ arg) t (k, h) = rw (k, split-append arg t h)

split-joined :
    (arg : Bytes) (args : List Bytes)
    → All (All NonZero) (arg ∷ args)
    → split (joined (arg ∷ args)) ≡ arg ∷ args
unfolding joined
split-joined arg [] (h, _) = split-last arg h
split-joined arg (next ∷ args) (h, hs) =
    split-append arg _ h ∙ ap (λ r. arg ∷ r) (split-joined next args hs)

-- Two argument vectors that are not empty and have no zero byte in an argument are fed to the hash as
-- the same bytes only if they are equal.
pub joined_injective :
    (arg brg : Bytes) (args brgs : List Bytes)
    → All (All NonZero) (arg ∷ args)
    → All (All NonZero) (brg ∷ brgs)
    → joined (arg ∷ args) ≡ joined (brg ∷ brgs)
    → ◌≡◌ {A = List Bytes} (arg ∷ args) (brg ∷ brgs)
joined_injective arg brg args brgs h k e =
    sym (split-joined arg args h) ∙ ap split e ∙ split-joined brg brgs k
