-- ===== src/Examples/Reviews.antt =====
-- The claim check and the critique at a discrepancy that a model wants to clear.
use finguard_major_project.Prelude.{
  all, String, ◌≡◌, ◌↔◌, refl, true, false, none, some, List, [], ◌∷◌,
}
use finguard_major_project.Prelude.Int.{pos}
use mathlib.Core.List.{flat_map}
use finguard_major_project.Dict.{lookup}
use finguard_major_project.Json.{Fields, end, field, str, get}
use finguard_major_project.Domain.{Decision, clear, Evidence, EvidenceSource, high, severity_rank}
use finguard_major_project.Outcome.{ok, Outcome, is_ok, value, value-ok}
use finguard_major_project.Llm.{normalize_citation, InvestigationOutput, fact}
use finguard_major_project.Contracts.{CheckResult, ReviewInput, ReviewOutput}
use finguard_major_project.Reviewer.{validate, review_case, guarded, review_case-Sound}
use finguard_major_project.Guardrails.Models.{CritiqueReport, supported}
use finguard_major_project.Guardrails.Tokens.{Tokens, ItemKind, Item}
use finguard_major_project.Guardrails.Claims.{EvidenceIndex, check_claim}
use finguard_major_project.Guardrails.Support.{Grounded, check_claim-supported_iff}
use finguard_major_project.Guardrails.FreeText.{Scanners, default_policy}
use finguard_major_project.Guardrails.Critique.{Readers, review_investigation}
use finguard_major_project.Guardrails.Floor.{Binding, review_investigation-Binding}
use finguard_major_project.Guardrails.Clearing.{Sound, review_investigation-Sound}
use finguard_major_project.Guardrails.Material.{Material, Held, review_investigation-Held}

abbrev tokens : List String → Tokens
tokens ids = record {
  ids = ids;
  numbers = [];
  dates = [];
  hours = [];
  currencies = [];
  times = [];
  month_days = [];
}

-- Reads the identifier of the one claim of this file.
abbrev read : String → Tokens
read text = tokens ("T1" ∷ [])

abbrev item : String → ItemKind → Item
item ref kind = record {
  ref = ref;
  kind = kind;
  text = "T1";
  tokens = tokens ("T1" ∷ []);
  numbers = [];
  hours = [];
}

abbrev pub readers : Readers
readers = record {
  extract_tokens = read;
  item_of_evidence = λ e. item e.evidence_id ItemKind.evidence;
  item_of_chunk = λ c. item c.chunk_id ItemKind.knowledge;
}

abbrev pub scanners : Scanners
scanners = record { injection_flags = λ t. false; semantic = none; show = λ v. "" }

abbrev evidence : Fields → Evidence
evidence payload = record {
  evidence_id = "REC-1";
  source = EvidenceSource.reconciliation;
  description = "T1";
  payload = payload;
  created_at = 0;
}

abbrev mismatch : Evidence
mismatch = evidence (field "rule_id" (str "REC-003") (field "severity" (str "high") end))

abbrev pub opinion : Decision → InvestigationOutput
opinion action = record {
  summary = "T1";
  findings = record { statement = "T1"; kind = fact; evidence_ids = "REC-1" ∷ [] } ∷ [];
  evidence = "REC-1" ∷ [];
  uncertainties = [];
  recommended_action = action;
  recommendations = [];
  confidence = 900000;
}

abbrev index : EvidenceIndex
index = ("REC-1", item "REC-1" ItemKind.evidence) ∷ []

check_claim-supported_iff_example :
    ((check_claim read (pos 0) "T1" "fact" ("REC-1" ∷ []) index).status ≡ supported)
    ↔ Grounded read (pos 0) "T1" "fact" ("REC-1" ∷ []) index
check_claim-supported_iff_example =
    check_claim-supported_iff read (pos 0) "T1" "fact" ("REC-1" ∷ []) index

abbrev over_mismatch : Outcome CritiqueReport
over_mismatch =
    review_investigation readers scanners default_policy (mismatch ∷ []) (some (opinion clear)) []

over_mismatch_ok : is_ok over_mismatch ≡ true
unfolding review_investigation
over_mismatch_ok = refl

abbrev alarm : CritiqueReport
alarm = value over_mismatch over_mismatch_ok

review_investigation-Binding_example : Binding alarm
review_investigation-Binding_example =
    review_investigation-Binding readers scanners default_policy (mismatch ∷ [])
      (some (opinion clear)) [] alarm (value-ok over_mismatch over_mismatch_ok)

mismatch-Material : Material scanners default_policy mismatch
unfolding get severity_rank
mismatch-Material = record {
  rule = "REC-003";
  severity = high;
  source = refl;
  rule_id = refl;
  not_status = refl;
  severe = refl;
  enough = refl;
}

review_investigation-Held_example : Held alarm
review_investigation-Held_example =
    review_investigation-Held readers scanners default_policy [] mismatch [] (some (opinion clear))
      [] mismatch-Material alarm (value-ok over_mismatch over_mismatch_ok)

abbrev over_quiet : Outcome CritiqueReport
over_quiet =
    review_investigation readers scanners default_policy (evidence end ∷ []) (some (opinion clear))
      []

over_quiet_ok : is_ok over_quiet ≡ true
unfolding review_investigation
over_quiet_ok = refl

abbrev calm : CritiqueReport
calm = value over_quiet over_quiet_ok

calm_validated : calm.validated ≡ true
unfolding review_investigation lookup normalize_citation flat_map
calm_validated = refl

review_investigation-Sound_example : Sound calm
review_investigation-Sound_example =
    review_investigation-Sound readers scanners default_policy (evidence end ∷ [])
      (some (opinion clear)) [] calm (value-ok over_quiet over_quiet_ok) calm_validated

abbrev pub quiet_input : ReviewInput
quiet_input = record {
  evidence = evidence end ∷ [];
  investigation = some (opinion clear);
  knowledge_chunks = [];
}

abbrev pub agreeing : ReviewInput → Outcome (List CheckResult)
agreeing inp = ok (record { check_id = "V1"; passed = true; detail = [] } ∷ [])

abbrev pub quiet_review : Outcome ReviewOutput
quiet_review = review_case (guarded readers scanners default_policy (agreeing ∷ [])) quiet_input

pub quiet_review_ok : is_ok quiet_review ≡ true
unfolding review_case review_investigation
quiet_review_ok = refl

pub quiet_review_validated : (value quiet_review quiet_review_ok).validated ≡ true
unfolding review_case review_investigation lookup normalize_citation flat_map
quiet_review_validated = refl

review_case-Sound_example :
    (r : CritiqueReport) × (checks : List CheckResult) × (validate (agreeing ∷ []) quiet_input
      ≡ ok checks)
    × ((value quiet_review quiet_review_ok).critique ≡ some r)
    × Sound r
    × (all (λ x. x.passed) checks ≡ true)
review_case-Sound_example =
    review_case-Sound readers scanners default_policy (agreeing ∷ []) quiet_input
      (value quiet_review quiet_review_ok) (value-ok quiet_review quiet_review_ok)
      quiet_review_validated
