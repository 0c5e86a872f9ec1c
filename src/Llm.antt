-- ===== src/Llm.antt =====
-- llm/schemas.py: the structured output that the language model must produce. A float is held in
-- millionths. The pydantic coercions of the raw text (`_lower`, `_upper`) are upstream of this.
use finguard_major_project.Prelude.{ℕ, String, Bool, ◌||◌, ◌&&◌, List, ◌==◌, if◌then◌else◌}
use Prim.Native.Char.{code}
use finguard_major_project.Strings.{strip, strip_of}
use finguard_major_project.Domain.{Decision}

pub data FindingKind : Type 0 where
  fact inference : FindingKind

-- `kind.value`
abbrev pub kind_value : FindingKind → String
kind_value fact = "fact"
kind_value inference = "inference"

pub record Finding : Type 0 where
  pub statement : String
  pub kind : FindingKind
  pub evidence_ids : List String

pub record InvestigationOutput : Type 0 where
  pub summary : String
  pub findings : List Finding
  pub evidence : List String
  pub uncertainties : List String
  pub recommended_action : Decision
  pub recommendations : List String
  pub confidence : ℕ

abbrev is_bracket : ℕ → Bool
is_bracket c = c == b'[' || c == b']'

abbrev is_prefix : ℕ → ℕ → Bool
is_prefix c d = (c == b'E' || c == b'K' || c == b'e' || c == b'k') && d == b':'

-- `ref[2:] if ref[:2] in ("E:", "K:", "e:", "k:") else ref`
unfoldable pub drop_prefix : String → String
drop_prefix String.[] = String.[]
drop_prefix (String.◌∷◌ c String.[]) = String.◌∷◌ c String.[]
drop_prefix (String.◌∷◌ c (String.◌∷◌ d s)) =
    if is_prefix (code c) (code d) then s else String.◌∷◌ c (String.◌∷◌ d s)

unfoldable pub normalize_citation : String → String
unfolding drop_prefix strip strip_of
normalize_citation reference = drop_prefix (strip (strip_of is_bracket (strip reference)))
