-- ===== src/Audit.antt =====
-- The hash chain of the security audit log (apps/api/src/security/domain/audit-chain.ts,
-- apps/api/src/security/infrastructure/drizzle-audit-log.ts). The table is the list of its rows in
-- the order of `seq`; an append runs alone, under the advisory lock.
pub mod Chained
mod Tests
use accesscore.Prelude.{
  ℕ, zero, suc, Bool, true, false, not, ◌&&◌, ◌||◌, List, [], ◌∷◌, ◌++◌, Option, none, some, ltb,
  eqb, if◌then◌else◌, length, map, Text, text, ◌==◌,
}

pub data Primitive : Type 0 where
  null : Primitive
  bool_value : Bool → Primitive
  number_value : ℕ → Primitive
  text_value : Text → Primitive

mutual
  pub data Json : Type 0 where
    primitive : Primitive → Json
    array : Items → Json
    object : Fields → Json

  pub data Items : Type 0 where
    no_item : Items
    item : Json → Items → Items

  pub data Fields : Type 0 where
    no_field : Fields
    field : Text → Json → Fields → Fields

-- `createHash('sha256')` of node:crypto, `JSON.stringify` of what is no object, `toISOString`.
pub record Encoding : Type 0 where
  pub sha256 : Text → Text
  pub stringify : Primitive → Text
  pub to_iso : ℕ → Text

-- The order of `sort()`, by code units.
unfoldable pub before : Text → Text → Bool
before [] t = true
before (x ∷ s) [] = false
before (x ∷ s) (y ∷ t) = ltb x y || (eqb x y && before s t)

unfoldable pub insert_entry : Text × Text → List (Text × Text) → List (Text × Text)
insert_entry e [] = e ∷ []
insert_entry e (f ∷ fs) =
    let rest = insert_entry e fs in if before e.0 f.0 then e ∷ f ∷ fs else f ∷ rest

unfoldable pub sort_entries : List (Text × Text) → List (Text × Text)
sort_entries [] = []
sort_entries (e ∷ es) = insert_entry e (sort_entries es)

-- `join(',')`
unfoldable pub join_comma : List Text → Text
join_comma [] = []
join_comma (s ∷ []) = s
join_comma (s ∷ t ∷ ts) = s ++ b',' ∷ join_comma (t ∷ ts)

abbrev entry_text : (Primitive → Text) → Text × Text → Text
entry_text stringify e = stringify (text_value e.0) ++ b':' ∷ e.1

unfoldable mutual
  pub canonicalize : (Primitive → Text) → Json → Text
  canonicalize stringify (primitive p) = stringify p
  canonicalize stringify (array items) =
      b'[' ∷ (join_comma (canonical_items stringify items) ++ b']' ∷ [])
  canonicalize stringify (object fields) =
      b'{'
      ∷ (join_comma (map (entry_text stringify) (sort_entries (canonical_fields stringify fields)))
          ++ b'}' ∷ [])

  pub canonical_items : (Primitive → Text) → Items → List Text
  canonical_items stringify no_item = []
  canonical_items stringify (item j js) = canonicalize stringify j ∷ canonical_items stringify js

  pub canonical_fields : (Primitive → Text) → Fields → List (Text × Text)
  canonical_fields stringify no_field = []
  canonical_fields stringify (field key j fs) =
      (key, canonicalize stringify j) ∷ canonical_fields stringify fs

pub record HashableRecord : Type 0 where
  pub type : Text
  pub org_id : Option Text
  pub subject : Option Text
  pub payload : Fields
  pub recorded_at : ℕ

abbrev text_or_null : Option Text → Json
text_or_null none = primitive null
text_or_null (some s) = primitive (text_value s)

unfoldable pub canonical : Encoding → HashableRecord → Text
canonical enc r = canonicalize enc.stringify (
    object (
      field (text "type") (primitive (text_value r.type)) (
        field (text "orgId") (text_or_null r.org_id) (
          field (text "subject") (text_or_null r.subject) (
            field (text "payload") (object r.payload) (
              field (text "recordedAt") (primitive (text_value (enc.to_iso r.recorded_at)))
                no_field))))))

unfoldable pub zeros : ℕ → Text
zeros zero = []
zeros (suc n) = b'0' ∷ zeros n

abbrev pub genesis_hash : Text
genesis_hash = zeros 64

unfoldable pub hash_record : Encoding → Text → HashableRecord → Text
hash_record enc prev_hash r = enc.sha256 (prev_hash ++ b'\n' ∷ canonical enc r)

pub record AuditRow : Type 0 where
  pub seq : ℕ
  pub content : HashableRecord
  pub prev_hash : Text
  pub hash : Text

pub record ChainVerification : Type 0 where
  pub is_ok : Bool
  pub total : ℕ
  pub broken_at : Option ℕ

-- The loop of `verifyChain` from an index; `total` is `records.length`.
unfoldable pub verify_from : Encoding → ℕ → ℕ → Text → List AuditRow → ChainVerification
verify_from enc total index previous [] = record { is_ok = true; total = total; broken_at = none }
verify_from enc total index previous (row ∷ rows) =
    let rest = verify_from enc total (suc index) row.hash rows in
    if not (hash_record enc previous row.content == row.hash)
    then record { is_ok = false; total = total; broken_at = some index }
    else rest

unfoldable pub verify_chain : Encoding → List AuditRow → ChainVerification
verify_chain enc rows = verify_from enc (length rows) 0 genesis_hash rows

-- The hash of the last row, from a hash that stands before the first.
unfoldable pub tail_hash : Text → List AuditRow → Text
tail_hash previous [] = previous
tail_hash previous (row ∷ rows) = tail_hash row.hash rows

pub record AuditEvent : Type 0 where
  pub type : Text
  pub org_id : Option Text
  pub subject : Option Text
  pub payload : Fields

pub record AuditLog : Type 0 where
  pub rows : List AuditRow
  pub next_seq : ℕ

-- `append` at a time: the log, and the number and hash that are returned.
unfoldable pub append : Encoding → AuditLog → AuditEvent → ℕ → AuditLog × (ℕ × Text)
append enc log event now =
    let prev_hash = tail_hash genesis_hash log.rows in
    let content : HashableRecord = record {
      type = event.type;
      org_id = event.org_id;
      subject = event.subject;
      payload = event.payload;
      recorded_at = now;
    } in
    let hash = hash_record enc prev_hash content in
    (
      record {
        rows =
            log.rows
            ++ record { seq = log.next_seq; content = content; prev_hash = prev_hash; hash = hash }
              ∷ [];
        next_seq = suc log.next_seq;
      },
      (log.next_seq, hash),
    )

unfoldable pub verify : Encoding → AuditLog → ChainVerification
verify enc log = verify_chain enc log.rows
