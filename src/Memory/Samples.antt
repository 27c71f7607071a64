-- ===== src/Memory/Samples.antt =====
-- A user asks to remember what they drink, later says otherwise, and confirms the new value. The
-- confidences are percentages here.
use reminder.Prelude.{
  distinct, ℕ, ◌-◌, ◌*◌, ◌/◌, String, ◌≡◌, refl, Bool, true, false, none, some, List, [], ◌∷◌, leb,
  find_row, update_rows,
}
use Prim.Native.String
use reminder.Memory.Record.{
  low, active, CanonicalMemory, MemoryRevision, MemoryCandidate, Db, value_error, Result, ok,
  raised, Python,
}
use reminder.Memory.Policy.{is_secret, reject}
use reminder.Memory.Tables.{
  get_memory, get_revision, get_candidate, first_of, find_active_memory, find_conflicting_memory,
  load_active_revision, insert_memory, write_memory, insert_revision, insert_candidate,
}
use reminder.Memory.Evidence.{
  get_evidence, persist_one, persist_evidence, validate_evidence_scope, attach_pairs,
  attach_revision_evidence, attach_candidate_evidence, candidate_evidence_ids,
}
use reminder.Memory.Revise.{Change, create_memory, revise_loaded, revise_memory}
use reminder.Memory.Reconcile.{
  Request, look_up, reinforce, ReconciliationResult, promote_candidate, store_candidate,
  reconcile_admitted, reconcile_candidate,
}
use reminder.Memory.Decide.{place_candidate, confirm_candidate, reject_candidate}
use reminder.Memory.Governed.{HasHead}
use reminder.Memory.Histories.{Op, reconcile, after, apply_all, apply_all-IsHealthy}
use reminder.Memory.Promises.{
  empty, empty-IsHealthy, memory-HasHead, one_open_revision, secrets_not_stored, automatic_keeps,
  decided_once,
}

abbrev joined : List String → String
joined [] = ""
joined (s ∷ ss) = String.◌++◌ s (joined ss)

abbrev python : Python ℕ ℕ
python = record {
  strip = λ s. s;
  split = λ s. s ∷ [];
  join = λ sep ss. joined ss;
  casefold = λ s. s;
  unit_separator = "/";
  sha256 = λ s. s;
  dumps = λ tag values. tag;
  leb_float = leb;
  sub = λ a b. a - b;
  mul = λ a b. a * b / 100;
  zero = 0;
  one = 100;
  auto_promotion_confidence = 85;
  embed_memory = λ s p v. none;
}

abbrev request : String → Bool → String → String → String → Request ℕ
request value explicit candidate memory revision = record {
  owner_id = 7;
  knowledge_base_id = none;
  memory_type = "preference";
  statement = record { subject = "user"; predicate = "drinks"; value = value };
  confidence = 90;
  sensitivity = low;
  evidence = [];
  extraction_provenance = "";
  explicit_request = explicit;
  actor = "memory-policy";
  candidate_id = candidate;
  memory_id = memory;
  revision_id = revision;
  now = 10;
}

abbrev asked : Op ℕ
asked = reconcile (request "tea" true "c1" "m1" "r1")

abbrev automatic : Request ℕ
automatic = request "coffee" false "c2" "m2" "r2"

abbrev change : Change
change = record { reason = ""; actor = "user"; revision_id = "r3"; now = 20 }

abbrev before : Db ℕ ℕ
before = apply_all python (asked ∷ (reconcile automatic ∷ [])) empty

abbrev tea : CanonicalMemory ℕ
tea = record {
  memory_id = "m1";
  owner_id = 7;
  knowledge_base_id = none;
  memory_type = "preference";
  subject = "user";
  predicate = "drinks";
  value = "tea";
  fingerprint = "userdrinkstea";
  confidence = 90;
  sensitivity = low;
  status = active;
  active_revision_id = "r1";
}

abbrev tea_revision : MemoryRevision ℕ
tea_revision = record {
  revision_id = "r1";
  memory_id = "m1";
  owner_id = 7;
  knowledge_base_id = none;
  subject = "user";
  predicate = "drinks";
  value = "tea";
  fingerprint = "userdrinkstea";
  embedding = none;
  valid_from = 10;
  valid_to = none;
  reason = "explicit_request";
  actor = "memory-policy";
}

tea_found :
    get_memory "m1" (apply_all python (asked ∷ []) (empty {F = ℕ} {V = ℕ})).memories ≡ some tea
unfolding get_memory get_revision get_candidate find_row update_rows distinct first_of
    find_active_memory find_conflicting_memory load_active_revision insert_memory write_memory
    insert_revision insert_candidate get_evidence persist_one persist_evidence
    validate_evidence_scope attach_pairs attach_revision_evidence attach_candidate_evidence
    candidate_evidence_ids create_memory revise_loaded revise_memory look_up reinforce
    promote_candidate store_candidate reconcile_admitted reconcile_candidate place_candidate
    confirm_candidate
tea_found = refl

revision_found :
    get_revision "r1" (apply_all python (asked ∷ []) (empty {F = ℕ} {V = ℕ})).revisions
    ≡ some tea_revision
unfolding get_memory get_revision get_candidate find_row update_rows distinct first_of
    find_active_memory find_conflicting_memory load_active_revision insert_memory write_memory
    insert_revision insert_candidate get_evidence persist_one persist_evidence
    validate_evidence_scope attach_pairs attach_revision_evidence attach_candidate_evidence
    candidate_evidence_ids create_memory revise_loaded revise_memory look_up reinforce
    promote_candidate store_candidate reconcile_admitted reconcile_candidate place_candidate
    confirm_candidate
revision_found = refl

memory-HasHead_example :
    HasHead (apply_all python (asked ∷ []) (empty {F = ℕ} {V = ℕ})).revisions tea
memory-HasHead_example = memory-HasHead python (asked ∷ []) "m1" tea tea_found

one_open_revision_example : ◌≡◌ {A = String} "r1" "r1"
one_open_revision_example =
    one_open_revision python (asked ∷ []) "r1" "r1" tea_revision tea_revision revision_found
      revision_found refl refl refl

secrets_not_stored_example :
    ((m : CanonicalMemory ℕ)
      → get_memory "m1" before.memories ≡ some m
      → is_secret m.sensitivity ≡ false)
    × ((c : MemoryCandidate ℕ)
        → get_candidate "m1" before.candidates ≡ some c
        → is_secret c.sensitivity ≡ false)
secrets_not_stored_example = secrets_not_stored python (asked ∷ (reconcile automatic ∷ [])) "m1"

abbrev result_of : Result (ReconciliationResult ℕ × Db ℕ ℕ) → ReconciliationResult ℕ
result_of (ok (res, later)) = res
result_of (raised e) = record {
  decision = reject;
  candidate = none;
  memory = none;
  reinforced = false;
}

automatic_result :
    reconcile_candidate python automatic (apply_all python (asked ∷ []) (empty {F = ℕ} {V = ℕ}))
    ≡ ok (
      result_of (reconcile_candidate python automatic (apply_all python (asked ∷ []) empty)),
      before,
    )
unfolding get_memory get_revision get_candidate find_row update_rows distinct first_of
    find_active_memory find_conflicting_memory load_active_revision insert_memory write_memory
    insert_revision insert_candidate get_evidence persist_one persist_evidence
    validate_evidence_scope attach_pairs attach_revision_evidence attach_candidate_evidence
    candidate_evidence_ids create_memory revise_loaded revise_memory look_up reinforce
    promote_candidate store_candidate reconcile_admitted reconcile_candidate place_candidate
    confirm_candidate
automatic_result = refl

automatic_keeps_example :
    (m' : CanonicalMemory ℕ) × (get_memory "m1" before.memories ≡ some m')
    × (m'.value ≡ "tea")
    × (m'.subject ≡ "user")
    × (m'.predicate ≡ "drinks")
    × (m'.active_revision_id ≡ "r1")
automatic_keeps_example =
    automatic_keeps python (asked ∷ []) automatic before
      (result_of (reconcile_candidate python automatic (apply_all python (asked ∷ []) empty))) "m1"
      tea automatic_result refl tea_found

abbrev memory_of : Result (CanonicalMemory ℕ × Db ℕ ℕ) → CanonicalMemory ℕ
memory_of (ok (m, later)) = m
memory_of (raised e) = tea

abbrev confirmed : Db ℕ ℕ
confirmed = after (confirm_candidate python "c2" 7 none "m3" change before) before

confirmed_result :
    confirm_candidate python "c2" 7 none "m3" change before
    ≡ ok (memory_of (confirm_candidate python "c2" 7 none "m3" change before), confirmed)
unfolding get_memory get_revision get_candidate find_row update_rows distinct first_of
    find_active_memory find_conflicting_memory load_active_revision insert_memory write_memory
    insert_revision insert_candidate get_evidence persist_one persist_evidence
    validate_evidence_scope attach_pairs attach_revision_evidence attach_candidate_evidence
    candidate_evidence_ids create_memory revise_loaded revise_memory look_up reinforce
    promote_candidate store_candidate reconcile_admitted reconcile_candidate place_candidate
    confirm_candidate
confirmed_result = refl

decided_once_example :
    (confirm_candidate python "c2" 7 none "m4" change confirmed ≡ raised value_error)
    × (reject_candidate "c2" 7 none 30 confirmed ≡ raised value_error)
decided_once_example =
    decided_once python "c2" 7 none "m3" "m4" change change 30 before confirmed
      (memory_of (confirm_candidate python "c2" 7 none "m3" change before))
      (apply_all-IsHealthy python (asked ∷ (reconcile automatic ∷ [])) empty
        (empty-IsHealthy python)).governed
      confirmed_result
