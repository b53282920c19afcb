-- ===== src/Refs/Keys.antt =====
-- Which code units identifiers and writable references leave out, and that the keys of nodes
-- (evaluate.ts `nodeKey`, tuple-index.ts `nodeKey`) tell writable references apart.
use accesscore.Prelude.{
  ℕ, ◌≡◌, refl, ◌↔◌, ◌⊎◌, inl, inr, ◌≢◌, true, not, [], ◌∷◌, arith, all, All-append, Text, eq_iff,
  Free, cut_unique, and-eq-true,
}
use accesscore.Refs.{
  is_identifier, is_letter, is_identifier_char, reserved_id_char, EntityRef, writable_entity_ref,
  format_entity_ref, node_key, ref_equals, OrgId, org_equals,
}

pub ref_equals_iff : (a b : EntityRef) → (ref_equals a b ≡ true) ↔ (a ≡ b)
unfolding ref_equals
ref_equals_iff a b = (
  λ h. ground (arith, eq_iff a.type b.type, eq_iff a.id b.id),
  λ h. ground (arith, eq_iff a.type b.type, eq_iff a.id b.id),
)

pub org_equals_iff : (a b : OrgId) → (org_equals a b ≡ true) ↔ (a ≡ b)
unfolding org_equals
org_equals_iff a b =
    (λ h. ground (arith, eq_iff a.value b.value), λ h. ground (arith, eq_iff a.value b.value))

-- The separators of the formats.
abbrev pub IsSeparator : ℕ → Type 0
IsSeparator c = (c ≡ b':') ⊎ (c ≡ b'#') ⊎ (c ≡ b'@') ⊎ (c ≡ b'.')

chars-Free : (c : ℕ) (s : Text) → IsSeparator c → all is_identifier_char s ≡ true → Free c s
chars-Free c [] sep h = tt
chars-Free c (x ∷ s) sep h = (λ e. ground arith, chars-Free c s sep (ground arith))

pub identifier-Free : (c : ℕ) (s : Text) → IsSeparator c → is_identifier s ≡ true → Free c s
unfolding is_identifier
identifier-Free c [] sep h = tt
identifier-Free c (x ∷ s) sep h =
    (λ e. ground arith, chars-Free c s sep (and-eq-true (is_letter x) _ h).1)

id_chars-Free :
    (c : ℕ) (s : Text)
    → (c ≡ b':') ⊎ (c ≡ b'#') ⊎ (c ≡ b'@')
    → all (λ x. not (reserved_id_char x)) s ≡ true
    → Free c s
id_chars-Free c [] sep h = tt
id_chars-Free c (x ∷ s) sep h = (λ e. ground arith, id_chars-Free c s sep (ground arith))

pub id-Free :
    (c : ℕ) (ref : EntityRef)
    → (c ≡ b':') ⊎ (c ≡ b'#') ⊎ (c ≡ b'@')
    → writable_entity_ref ref ≡ true
    → Free c ref.id
unfolding writable_entity_ref
id-Free c ref sep h = id_chars-Free c ref.id sep (ground arith)

pub type-identifier :
    (ref : EntityRef) → writable_entity_ref ref ≡ true → is_identifier ref.type ≡ true
unfolding writable_entity_ref
type-identifier ref h = ground arith

pub id-nonempty : (ref : EntityRef) → writable_entity_ref ref ≡ true → ref.id ≢ []
unfolding writable_entity_ref
id-nonempty ref h e = ground arith

pub type-nonempty : (ref : EntityRef) → writable_entity_ref ref ≡ true → ref.type ≢ []
unfolding writable_entity_ref is_identifier
type-nonempty ref h e = ground arith

-- The formatted reference has no `#`.
pub format-Free :
    (ref : EntityRef) → writable_entity_ref ref ≡ true → Free b'#' (format_entity_ref ref)
unfolding format_entity_ref
format-Free ref h =
    All-append (λ x. x ≢ b'#') ref.type (b':' ∷ ref.id)
      (identifier-Free b'#' ref.type (inr (inl refl)) (type-identifier ref h))
      (λ e. omega arith, id-Free b'#' ref (inr (inl refl)) h)

-- Formats of references whose types have no `:` differ.
pub format_injective :
    (a b : EntityRef)
    → writable_entity_ref a ≡ true
    → writable_entity_ref b ≡ true
    → format_entity_ref a ≡ format_entity_ref b
    → a ≡ b
unfolding format_entity_ref
format_injective a b ha hb e =
    let free = λ (r : EntityRef) (h : writable_entity_ref r ≡ true).
      identifier-Free b':' r.type (inl refl) (type-identifier r h) in
    let (same_type, same_id) = cut_unique b':' a.type b.type a.id b.id (free a ha) (free b hb) e in
    λ i. record { type = same_type i; id = same_id i }

-- Two nodes with the same key have the same relation and the same object, where the objects may be
-- written; the relations are any texts.
pub node_key_injective :
    (a b : EntityRef) (r s : Text)
    → writable_entity_ref a ≡ true
    → writable_entity_ref b ≡ true
    → node_key a r ≡ node_key b s
    → (a ≡ b) × (r ≡ s)
unfolding node_key
node_key_injective a b r s ha hb e =
    let (same, rest) =
      cut_unique b'#' (format_entity_ref a) (format_entity_ref b) r s (format-Free a ha)
        (format-Free b hb) e in
    (format_injective a b ha hb same, rest)
