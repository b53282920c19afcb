-- ===== src/Refs/Tests.antt =====
-- Runs of the readers and printers of references, subjects and actions (entity-ref.ts,
-- subject-ref.ts, action.ts).
use accesscore.Prelude.{◌≡◌, refl, some, text}
use accesscore.Refs.{
  EntityRef, SubjectRef, userset, Action, is_identifier, writable_entity_ref, writable_subject,
  encode_subject, parse_subject,
}
use accesscore.Refs.Keys.{node_key_injective}
use accesscore.Refs.RoundTrip.{parse-encode}

abbrev eng : EntityRef
eng = record { type = text "group"; id = text "eng" }

abbrev members : SubjectRef
members = userset eng (text "member")

abbrev read : Action
read = record { namespace = text "doc"; verb = text "read" }

node_key_injective_example : (eng ≡ eng) × (text "member" ≡ text "member")
unfolding writable_entity_ref is_identifier text
node_key_injective_example =
    node_key_injective eng eng (text "member") (text "member") refl refl refl

parse-encode_example : parse_subject (encode_subject members) ≡ some members
unfolding writable_subject writable_entity_ref is_identifier text
parse-encode_example = parse-encode members refl
