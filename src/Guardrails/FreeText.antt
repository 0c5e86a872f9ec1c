-- ===== src/Guardrails/FreeText.antt =====
-- guardrails/policy_checks.py: the configuration, and the free text of evidence. The scanners of text
-- are given as `Scanners`.
use finguard_major_project.Prelude.{
  ℕ, String, Bool, true, false, ◌&&◌, ◌||◌, Option, none, some, List, [], ◌∷◌, ◌++◌, any, is_empty,
  ◌==◌, if◌then◌else◌,
}
use finguard_major_project.Strings.{casefold}
use finguard_major_project.Json.{
  Value, null, bool, int, float, str, arr, obj, Items, nil, cons, Fields, end, field,
}
use finguard_major_project.Domain.{Evidence, Severity, medium}

pub record PolicyConfig : Type 0 where
  pub floor_min_severity : Severity
  pub status_rules_force_review : Bool
  pub anomaly_flag_forces_review : Bool
  pub kyc_concerns_force_review : Bool
  pub esg_governance_forces_review : Bool
  pub suspicious_evidence_forces_review : Bool
  pub confidence_ceiling_with_unsupported : ℕ

abbrev pub default_policy : PolicyConfig
default_policy = record {
  floor_min_severity = medium;
  status_rules_force_review = false;
  anomaly_flag_forces_review = true;
  kyc_concerns_force_review = true;
  esg_governance_forces_review = true;
  suspicious_evidence_forces_review = true;
  confidence_ceiling_with_unsupported = 500000;
}

-- `bool(injection_flags(t))`, `semantic.is_injection` where a tripwire is given, and `str` of a
-- value that is not a text.
pub record Scanners : Type 0 where
  pub injection_flags : String → Bool
  pub semantic : Option (String → Bool)
  pub show : Value → String

-- `_strings`
unfoldable mutual
  pub strings : Value → List String
  strings null = []
  strings (bool b) = []
  strings (int n) = []
  strings (float n) = []
  strings (str s) = s ∷ []
  strings (arr xs) = strings_of_items xs
  strings (obj fs) = strings_of_fields fs

  pub strings_of_items : Items → List String
  strings_of_items nil = []
  strings_of_items (cons v vs) = strings v ++ strings_of_items vs

  pub strings_of_fields : Fields → List String
  strings_of_fields end = []
  strings_of_fields (field k v fs) = strings v ++ strings_of_fields fs

abbrev begins : List ℕ → List ℕ → Bool
begins [] cs = true
begins (p ∷ ps) [] = false
begins (p ∷ ps) (c ∷ cs) = p == c && begins ps cs

-- `s.startswith(p)` and `p in s`, on code points.
abbrev contains_part : List ℕ → List ℕ → Bool
contains_part ps [] = is_empty ps
contains_part ps (c ∷ cs) = begins ps (c ∷ cs) || contains_part ps cs

abbrev codes : String → List ℕ
codes String.[] = []
codes (String.◌∷◌ c s) = Prim.Native.Char.code c ∷ codes s

abbrev pub starts_with : String → String → Bool
starts_with s p = begins (codes p) (codes s)

abbrev free_text_keys : List String
free_text_keys = "memo" ∷ "note" ∷ "comment" ∷ "remark" ∷ "narrative" ∷ "text" ∷ []

abbrev is_free_text_key : String → Bool
is_free_text_key key = any (λ k. contains_part (codes k) (casefold key)) free_text_keys

-- The text under a key, where the key is one of free text.
unfoldable own_text : String → Value → List String
own_text k null = []
own_text k (bool b) = []
own_text k (int n) = []
own_text k (float n) = []
own_text k (str s) = if is_free_text_key k then s ∷ [] else []
own_text k (arr xs) = []
own_text k (obj fs) = []

-- `free_text`; a text that is not under such a key is left out.
unfoldable mutual
  unfolding own_text

  pub free_text : Value → List String
  free_text null = []
  free_text (bool b) = []
  free_text (int n) = []
  free_text (float n) = []
  free_text (str s) = []
  free_text (arr xs) = free_text_of_items xs
  free_text (obj fs) = free_text_of_fields fs

  pub free_text_of_items : Items → List String
  free_text_of_items nil = []
  free_text_of_items (cons v vs) = free_text v ++ free_text_of_items vs

  pub free_text_of_fields : Fields → List String
  free_text_of_fields end = []
  free_text_of_fields (field k v fs) = own_text k v ++ (free_text v ++ free_text_of_fields fs)

abbrev is_injection : Option (String → Bool) → List String → Bool
is_injection none texts = false
is_injection (some f) texts = any f texts

abbrev pub is_suspicious : Scanners → Evidence → Bool
is_suspicious tools item =
    any tools.injection_flags (item.description ∷ strings (obj item.payload))
    || is_injection tools.semantic (free_text (obj item.payload))

unfoldable pub suspicious_evidence : Scanners → List Evidence → List String
unfolding strings free_text
suspicious_evidence tools [] = []
suspicious_evidence tools (item ∷ evidence) =
    let rest = suspicious_evidence tools evidence in
    if is_suspicious tools item then item.evidence_id ∷ rest else rest
