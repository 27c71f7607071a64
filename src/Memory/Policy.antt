-- ===== src/Memory/Policy.antt =====
-- `classify_candidate` (app/mneme/memoria/server/memory/policy.py), the identities of
-- app/mneme/memoria/server/memory/identity.py, and how support is combined.
use reminder.Prelude.{
  ℕ, String, Bool, true, false, not, ◌&&◌, ◌||◌, Option, none, some, [], ◌∷◌, if◌then◌else◌,
}
use reminder.Memory.Record.{
  Sensitivity, unknown, low, sensitive, secret, value_error, Result, ok, raised, IdentityValue,
  number, text, null, Python,
}

pub data PolicyDecision : Type 0 where
  promote pending_review reject : PolicyDecision

abbrev pub is_secret : Sensitivity → Bool
is_secret secret = true
is_secret _ = false

abbrev pub is_sensitive : Sensitivity → Bool
is_sensitive sensitive = true
is_sensitive _ = false

abbrev pub is_unknown : Sensitivity → Bool
is_unknown unknown = true
is_unknown _ = false

module _ {F V : Type 0} (py : Python F V) where
  -- 0 <= confidence <= 1
  abbrev pub is_confidence : F → Bool
  is_confidence c = py.leb_float py.zero c && py.leb_float c py.one

  abbrev pub classify_candidate :
      Sensitivity → F → (explicit_request has_conflict : Bool) → Result PolicyDecision
  classify_candidate sensitivity confidence explicit_request has_conflict =
      if is_unknown sensitivity
      then raised value_error
      else (if is_secret sensitivity
          then ok reject
          else (if not (is_confidence confidence)
              then raised value_error
              else (if explicit_request
                  then ok promote
                  else (if has_conflict
                        || (is_sensitive sensitivity
                            || not (py.leb_float py.auto_promotion_confidence confidence))
                      then ok pending_review
                      else ok promote))))

  abbrev pub min_float : F → F → F
  min_float a b = if py.leb_float a b then a else b

  abbrev pub combined_confidence : F → F → F
  combined_confidence current additional =
      min_float py.one (py.sub py.one (py.mul (py.sub py.one current) (py.sub py.one additional)))

  abbrev pub normalize_memory_text : String → String
  normalize_memory_text value = py.casefold (py.join " " (py.split (py.strip value)))

  abbrev pub memory_fingerprint : (subject predicate value : String) → String
  memory_fingerprint subject predicate value = py.sha256 (
      py.join py.unit_separator (
        normalize_memory_text subject
        ∷ (normalize_memory_text predicate ∷ (normalize_memory_text value ∷ []))))

  abbrev pub base_value : Option String → IdentityValue
  base_value none = null
  base_value (some s) = text s

  abbrev pub evidence_identity :
      (owner_id : ℕ)
      → (knowledge_base_id : Option String)
      → (source_type source_id source_version content_hash : String) → String
  evidence_identity owner_id knowledge_base_id source_type source_id source_version content_hash =
      py.sha256 (
        py.dumps "mneme:evidence-identity" (
          number owner_id
          ∷ (base_value knowledge_base_id
              ∷ (text source_type
                  ∷ (text source_id ∷ (text source_version ∷ (text content_hash ∷ [])))))))

-- max by the rank low < unknown < sensitive; a secret never comes here (the code would raise KeyError)
abbrev pub combined_sensitivity : Sensitivity → Sensitivity → Sensitivity
combined_sensitivity sensitive _ = sensitive
combined_sensitivity low additional = additional
combined_sensitivity unknown sensitive = sensitive
combined_sensitivity unknown _ = unknown
combined_sensitivity secret _ = secret
