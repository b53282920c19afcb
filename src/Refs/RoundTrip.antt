-- ===== src/Refs/RoundTrip.antt =====
-- Printing and parsing of references, subjects and actions are inverse where they are defined.
use accesscore.Prelude.{
  ℕ, suc, ◌≡◌, refl, sym, ap, ◌∙◌, inl, inr, ◌≢◌, true, List, [], ◌∷◌, ◌++◌, some, arith, length,
  take, Text, Free, index_of, index_of-append, index_of-Free, take-append, drop-append, cut, split,
  split-Free, split-append, join, join-split, includes-Free, length-append, Option-cases,
}
use accesscore.Refs.{
  is_identifier, EntityRef, writable_entity_ref, format_entity_ref, parse_entity_ref, SubjectRef,
  subject, userset, writable_subject, encode_subject, parse_subject, Action, ok, create_action,
  action_name, two_parts,
}
use accesscore.Refs.Keys.{identifier-Free, type-identifier, id-nonempty, type-nonempty, format-Free}

length-ne-zero : (s : Text) → s ≢ [] → (n : ℕ) × (length s ≡ suc n)
length-ne-zero [] h = absurd (h refl)
length-ne-zero (x ∷ s) h = (length s, refl)

parse_at :
    (t i : Text)
    → t ≢ []
    → i ≢ []
    → Free b':' t
    → parse_entity_ref (t ++ b':' ∷ i) ≡ some (record { type = t; id = i })
unfolding parse_entity_ref
parse_at t i ht hi free = ground (
  arith,
  index_of-append b':' t i free,
  take-append b':' t (b':' ∷ i),
  drop-append b':' t i,
  length-append t (b':' ∷ i),
  length-ne-zero t ht,
  length-ne-zero i hi,
)

-- A reference that may be written is read back from its format.
pub parse-format :
    (ref : EntityRef)
    → writable_entity_ref ref ≡ true
    → parse_entity_ref (format_entity_ref ref) ≡ some ref
unfolding format_entity_ref
parse-format ref h =
    parse_at ref.type ref.id (type-nonempty ref h) (id-nonempty ref h)
      (identifier-Free b':' ref.type (inl refl) (type-identifier ref h))

-- Whatever is read is printed as it was.
pub format-parse :
    (value : Text) (ref : EntityRef)
    → parse_entity_ref value ≡ some ref
    → format_entity_ref ref ≡ value
unfolding parse_entity_ref format_entity_ref
format-parse value ref h = elim (Option-cases (index_of b':' value)) [
  | inl gone ↦ ground arith
  | inr (n, found) ↦ ground (arith, cut b':' value n found)
]

hash-Free :
    (ref : EntityRef) (relation : Text)
    → writable_entity_ref ref ≡ true
    → index_of b'#' (format_entity_ref ref ++ b'#' ∷ relation)
      ≡ some (length (format_entity_ref ref))
hash-Free ref relation h = index_of-append b'#' (format_entity_ref ref) relation (format-Free ref h)

identifier-nonempty : (s : Text) → is_identifier s ≡ true → s ≢ []
unfolding is_identifier
identifier-nonempty s h e = ground arith

parse-encode_userset :
    (ref : EntityRef) (relation : Text)
    → writable_entity_ref ref ≡ true
    → is_identifier relation ≡ true
    → parse_subject (encode_subject (userset ref relation)) ≡ some (userset ref relation)
unfolding parse_subject encode_subject
parse-encode_userset ref relation h k = ground (
  arith,
  hash-Free ref relation h,
  take-append b'#' (format_entity_ref ref) (b'#' ∷ relation),
  drop-append b'#' (format_entity_ref ref) relation,
  includes-Free b'#' relation (identifier-Free b'#' relation (inr (inl refl)) k),
  length-ne-zero relation (identifier-nonempty relation k),
  parse-format ref h,
)

parse-encode_entity :
    (ref : EntityRef)
    → writable_entity_ref ref ≡ true
    → parse_subject (encode_subject (subject ref)) ≡ some (subject ref)
unfolding parse_subject encode_subject
parse-encode_entity ref h =
    ground
      (arith, index_of-Free b'#' (format_entity_ref ref) (format-Free ref h), parse-format ref h)

-- A subject that may be written is read back from its encoding.
pub parse-encode :
    (s : SubjectRef) → writable_subject s ≡ true → parse_subject (encode_subject s) ≡ some s
unfolding writable_subject
parse-encode (userset ref relation) h =
    parse-encode_userset ref relation (ground arith) (ground arith)
parse-encode (subject ref) h = parse-encode_entity ref h

-- Whatever text is read as a subject is the encoding of that subject.
pub encode-parse :
    (value : Text) (s : SubjectRef) → parse_subject value ≡ some s → encode_subject s ≡ value
unfolding parse_subject encode_subject
encode-parse value s h = elim (Option-cases (index_of b'#' value)) [
  | inl gone ↦ elim (Option-cases (parse_entity_ref value)) [
    | inl bad ↦ ground arith
    | inr (ref, read) ↦ ground (arith, format-parse value ref read)
  ]
  | inr (n, found) ↦ elim (Option-cases (parse_entity_ref (take n value))) [
    | inl bad ↦ ground arith
    | inr (ref, read) ↦ ground (arith, cut b'#' value n found, format-parse (take n value) ref read)
  ]
]

-- The name of an action whose namespace and verb are identifiers is read back as the action.
pub create-name :
    (a : Action)
    → is_identifier a.namespace ≡ true
    → is_identifier a.verb ≡ true
    → create_action (action_name a) ≡ ok a
unfolding create_action action_name
create-name a h k =
    let free =
      λ (s : Text) (e : is_identifier s ≡ true). identifier-Free b'.' s (inr (inr (inr refl))) e in
    ground (
      arith,
      split-append b'.' a.namespace a.verb (free a.namespace h),
      split-Free b'.' a.verb (free a.verb k),
      identifier-nonempty a.namespace h,
      identifier-nonempty a.verb k,
    )

two_parts-ok :
    (parts : List Text) (a : Action) → two_parts parts ≡ ok a → parts ≡ a.namespace ∷ a.verb ∷ []
two_parts-ok [] a h = cc
two_parts-ok (p ∷ []) a h = cc
two_parts-ok (p ∷ q ∷ []) a h = ground arith
two_parts-ok (p ∷ q ∷ r ∷ rest) a h = cc

-- Whatever name is accepted as an action is that action's name.
pub name-create : (name : Text) (a : Action) → create_action name ≡ ok a → action_name a ≡ name
unfolding create_action action_name
name-create name a h =
    sym (ap (join b'.') (two_parts-ok (split b'.' name) a h)) ∙ join-split b'.' name
