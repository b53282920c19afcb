-- ===== src/Refs.antt =====
-- Entity and subject references, identifiers, actions and relation tuples
-- (apps/api/src/authz/domain: identifier.ts, entity-ref.ts, subject-ref.ts, action.ts,
-- relation-tuple.ts; apps/api/src/shared: result.ts, kernel/org-id.ts, kernel/revision.ts).
-- A thrown `Error` is `none`.
pub mod Keys
pub mod RoundTrip
mod Tests
use accesscore.Prelude.{
  ℕ, suc, ◌+◌, ◌-◌, Bool, true, false, not, ◌&&◌, ◌||◌, List, [], ◌∷◌, ◌++◌, Option, none, some,
  leb, eqb, if◌then◌else◌, length, take, drop, all, Text, text, ◌==◌, index_of, includes, split,
}

-- result.ts
pub data Result {ℓ κ} (T : Type ℓ) (E : Type κ) : Type (ℓ ⊔ κ) where
  ok : T → Result T E
  err : E → Result T E

pub record OrgId : Type 0 where
  pub value : Text

unfoldable pub org_equals : OrgId → OrgId → Bool
org_equals a b = a.value == b.value

pub record Revision : Type 0 where
  pub value : ℕ

unfoldable pub is_at_least : Revision → Revision → Bool
is_at_least a b = leb b.value a.value

-- identifier.ts: /^[a-zA-Z][a-zA-Z0-9_-]*$/
abbrev is_letter : ℕ → Bool
is_letter c = (leb b'a' c && leb c b'z') || (leb b'A' c && leb c b'Z')

abbrev is_identifier_char : ℕ → Bool
is_identifier_char c = is_letter c || (leb b'0' c && leb c b'9') || eqb c b'_' || eqb c b'-'

unfoldable pub is_identifier : Text → Bool
is_identifier [] = false
is_identifier (c ∷ s) = is_letter c && all is_identifier_char s

-- entity-ref.ts
pub record EntityRef : Type 0 where
  pub type : Text
  pub id : Text

abbrev reserved_id_char : ℕ → Bool
reserved_id_char c = eqb c b':' || eqb c b'#' || eqb c b'@'

abbrev is_empty : Text → Bool
is_empty [] = true
is_empty (_ ∷ _) = false

-- Whether `assertWritableEntityRef` returns without throwing.
unfoldable pub writable_entity_ref : EntityRef → Bool
writable_entity_ref ref =
    is_identifier ref.type && not (is_empty ref.id) && all (λ c. not (reserved_id_char c)) ref.id

unfoldable pub format_entity_ref : EntityRef → Text
format_entity_ref ref = ref.type ++ b':' ∷ ref.id

-- `separator <= 0 || separator === value.length - 1` throws.
unfoldable pub parse_entity_ref : Text → Option EntityRef
parse_entity_ref value = elim (index_of b':' value) [
  | none ↦ none
  | some separator ↦
      if leb separator 0 || eqb (suc separator) (length value)
      then none
      else some (record { type = take separator value; id = drop (separator + 1) value })
]

pub data SubjectRef : Type 0 where
  subject : EntityRef → SubjectRef
  userset : EntityRef → Text → SubjectRef

-- Whether `assertWritableSubject` returns without throwing.
unfoldable pub writable_subject : SubjectRef → Bool
writable_subject (subject ref) = writable_entity_ref ref
writable_subject (userset ref relation) = writable_entity_ref ref && is_identifier relation

unfoldable pub encode_subject : SubjectRef → Text
encode_subject (subject ref) = format_entity_ref ref
encode_subject (userset ref relation) = format_entity_ref ref ++ b'#' ∷ relation

abbrev as_userset : Text → Option EntityRef → Option SubjectRef
as_userset relation none = none
as_userset relation (some ref) = some (userset ref relation)

abbrev as_subject : Option EntityRef → Option SubjectRef
as_subject none = none
as_subject (some ref) = some (subject ref)

unfoldable pub parse_subject : Text → Option SubjectRef
parse_subject value = elim (index_of b'#' value) [
  | none ↦ as_subject (parse_entity_ref value)
  | some hash ↦
      let relation = drop (hash + 1) value in
      if eqb (length relation) 0 || includes b'#' relation
      then none
      else as_userset relation (parse_entity_ref (take hash value))
]

-- action.ts
pub record Action : Type 0 where
  pub namespace : Text
  pub verb : Text

pub data ActionError : Type 0 where
  invalid_action : ActionError

abbrev two_parts : List Text → Result Action ActionError
two_parts (namespace ∷ verb ∷ []) =
    if is_empty namespace
      || is_empty verb
      || not (is_identifier namespace)
      || not (is_identifier verb)
    then err invalid_action
    else ok (record { namespace = namespace; verb = verb })
two_parts _ = err invalid_action

unfoldable pub create_action : Text → Result Action ActionError
create_action name = two_parts (split b'.' name)

unfoldable pub action_name : Action → Text
action_name a = a.namespace ++ b'.' ∷ a.verb

-- relation-tuple.ts
pub record RelationTuple : Type 0 where
  pub org_id : OrgId
  pub object : EntityRef
  pub relation : Text
  pub subject_ref : SubjectRef
  pub revision : Revision
  pub created_at : ℕ

unfoldable pub write_tuple : RelationTuple → Option RelationTuple
write_tuple input =
    if not (writable_entity_ref input.object)
    then none
    else if not (is_identifier input.relation)
    then none
    else if not (writable_subject input.subject_ref)
    then none
    else some input

-- `nodeKey` of evaluate.ts and of tuple-index.ts.
unfoldable pub node_key : EntityRef → Text → Text
node_key object relation = format_entity_ref object ++ b'#' ∷ relation

unfoldable pub tuple_key : EntityRef → Text → SubjectRef → Text
tuple_key object relation s = node_key object relation ++ b'@' ∷ encode_subject s

unfoldable pub key_of : RelationTuple → Text
key_of t = format_entity_ref t.object ++ b'#' ∷ (t.relation ++ b'@' ∷ encode_subject t.subject_ref)

-- `refEquals` of evaluate.ts, `sameRef` of boundary.ts.
unfoldable pub ref_equals : EntityRef → EntityRef → Bool
ref_equals a b = a.type == b.type && a.id == b.id
