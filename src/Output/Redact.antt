-- ===== src/Output/Redact.antt =====
-- src/output.rs: redaction and the fail-closed scan.
pub mod Scan
pub mod Complete
use kpexec.Prelude.{
  ℕ, zero, suc, Bool, true, false, not, ◌&&◌, Option, none, some, List, [], ◌∷◌, ◌++◌,
  if◌then◌else◌, length, drop, codes,
}
use kpexec.Output.Bytes.{Bytes, starts_with, is_empty, windows, any_eq}

abbrev pub redaction_marker : Bytes
redaction_marker = codes "[REDACTED:kpexec]"

abbrev pub max_redaction_passes : ℕ
max_redaction_passes = 4

-- The inner `for v in variants`: the first nonempty variant that stands at the position.
unfoldable pub match_at : List Bytes → Bytes → Option Bytes
unfolding starts_with is_empty
match_at [] s = none
match_at (v ∷ vs) s = if not (is_empty v) && starts_with s v then some v else match_at vs s

abbrev pub copied : ℕ → Bytes × Bool → Bytes × Bool
copied b (out, replaced) = (b ∷ out, replaced)

abbrev pub masked : Bytes × Bool → Bytes × Bool
masked (out, replaced) = (redaction_marker ++ out, true)

-- The outer `while i < input.len()`, over `input[i..]`. Each round drops a byte at least, so the
-- length of the input is fuel enough (`replace_from-Scan`).
unfoldable pub replace_from : ℕ → List Bytes → Bytes → Bytes × Bool
unfolding match_at
replace_from zero vs s = ([], false)
replace_from (suc f) vs [] = ([], false)
replace_from (suc f) vs (b ∷ s) = elim (match_at vs (b ∷ s)) [
  | none ↦ copied b (replace_from f vs s)
  | some v ↦ masked (replace_from f vs (drop (length v) (b ∷ s)))
]

unfoldable pub replace_all_variants : Bytes → List Bytes → Bytes × Bool
unfolding replace_from
replace_all_variants input variants = replace_from (length input) variants input

unfoldable pub contains_any_variant : Bytes → List Bytes → Bool
unfolding any_eq windows is_empty
contains_any_variant input [] = false
contains_any_variant input (v ∷ vs) =
    if is_empty v
    then contains_any_variant input vs
    else if any_eq v (windows (length v) input)
    then true
    else contains_any_variant input vs

-- The passes; a pass that replaced nothing ends them.
unfoldable pub passes : ℕ → Bytes → List Bytes → Bytes
unfolding replace_all_variants
passes zero current variants = current
passes (suc n) current variants =
    let (next, replaced) = replace_all_variants current variants in
    let rest = passes n next variants in if replaced then rest else next

unfoldable pub redact_bounded : Bytes → List Bytes → ℕ → Bytes × Bool
unfolding passes contains_any_variant
redact_bounded input variants bound =
    let current = passes bound input variants in
    (current, not (contains_any_variant current variants))
