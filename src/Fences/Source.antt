-- ===== src/Fences/Source.antt =====
-- The sources that a fence names, and the order of the events.
use reminder.Prelude.{
  ℕ, String, ◌≡◌, refl, true, false, Bool, ◌&&◌, not, Option, none, some, List, [], ◌∷◌, ◌++◌, ltb,
  eqb, ◌==◌, if◌then◌else◌, some_of, eq_iff, arith,
}

pub data FenceSourceType : Type 0 where
  knowledge_base document conversation explicit_request : FenceSourceType

pub record FenceSource : Type 0 where
  pub source_type : FenceSourceType
  pub source_id : String

-- The fields of `AgentEventEnvelope` (contracts/events.py) that the module reads.
pub record Event : Type 0 where
  pub event_id : String
  pub owner_id : ℕ
  pub knowledge_base_id : Option String
  pub occurred_at : ℕ

abbrev pub same_type : FenceSourceType → FenceSourceType → Bool
same_type knowledge_base knowledge_base = true
same_type document document = true
same_type conversation conversation = true
same_type explicit_request explicit_request = true
same_type _ _ = false

abbrev pub same_source : FenceSource → FenceSource → Bool
same_source a b = same_type a.source_type b.source_type && (a.source_id == b.source_id)

abbrev pub has_source : FenceSource → List FenceSource → Bool
has_source source sources = some_of (same_source source) sources

-- list(dict.fromkeys(sources)): the first of each, in order. `seen` are those before.
unfoldable pub unseen : List FenceSource → List FenceSource → List FenceSource
unseen seen [] = []
unseen seen (source ∷ rest) =
    let fresh = unseen (source ∷ seen) rest in
    if has_source source seen then unseen seen rest else source ∷ fresh

unfoldable pub sources_with_knowledge_base : Event → List FenceSource → List FenceSource
unfolding unseen
sources_with_knowledge_base event sources = unseen [] (elim event.knowledge_base_id [
  | none ↦ sources
  | some i ↦ sources ++ (record { source_type = knowledge_base; source_id = i } ∷ [])
])

-- Python's order on event ids, a parameter, with the database's comparison of the same ids.
pub record IdOrder : Type 0 where
  pub at_most : String → String → Bool
  pub sql_above : String → String → Bool

pub record IsLinear (o : IdOrder) : Type 0 where
  pub transitive :
      (a b c : String) → o.at_most a b ≡ true → o.at_most b c ≡ true → o.at_most a c ≡ true
  pub reflexive : (a : String) → o.at_most a a ≡ true
  -- The database compares the ids as Python does.
  pub agrees : (a b : String) → o.sql_above a b ≡ not (o.at_most a b)
  pub total : (a b : String) → o.at_most a b ≡ false → o.at_most b a ≡ true

module _ (o : IdOrder) where
  -- `_order(a) <= _order(b)` on pairs of a time and an id.
  abbrev pub order_le : (a : ℕ) → (i : String) → (b : ℕ) → (j : String) → Bool
  order_le a i b j = if ltb a b then true else (if eqb a b then o.at_most i j else false)

  pub order_le_trans :
      IsLinear o
      → (a b c : ℕ) (i j k : String) → order_le a i b j ≡ true
      → order_le b j c k ≡ true
      → order_le a i c k ≡ true
  order_le_trans linear a b c i j k h g = ground (arith, linear.transitive i j k, h, g)

same_type_eq : (a b : FenceSourceType) → same_type a b ≡ true → a ≡ b
same_type_eq knowledge_base knowledge_base h = refl
same_type_eq document document h = refl
same_type_eq conversation conversation h = refl
same_type_eq explicit_request explicit_request h = refl
same_type_eq _ _ h = ground arith

pub same_source_eq : (a b : FenceSource) → same_source a b ≡ true → a ≡ b
same_source_eq a b h =
    ground (arith, h, same_type_eq a.source_type b.source_type, eq_iff a.source_id b.source_id)
