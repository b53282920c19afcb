-- ===== src/Audit/Tests.antt =====
-- Runs of the audit log (audit-chain.ts, drizzle-audit-log.ts) with a hash that keeps a text's
-- digits only.
use accesscore.Prelude.{
  ◌<◌, ◌≡◌, refl, true, List, [], ◌∷◌, none, some, length, take, eqb, if◌then◌else◌, Text, text,
  ◌==◌,
}
use accesscore.Audit.{
  Encoding, no_field, genesis_hash, AuditRow, verify_from, zeros, hash_record, verify_chain,
  tail_hash, AuditEvent, AuditLog, append, verify,
}
use accesscore.Audit.Chained.{IsChained, verify-append, verify_chain-broken_at}

-- Every line feed of the text is a space in its hash.
unfoldable spaced : Text → Text
spaced [] = []
spaced (c ∷ s) = (if eqb c b'\n' then b' ' else c) ∷ spaced s

abbrev spacing : Encoding
spacing = record { sha256 = spaced; stringify = λ p. text "p"; to_iso = λ n. text "t" }

abbrev empty_log : AuditLog
empty_log = record { rows = []; next_seq = 1 }

abbrev login : AuditEvent
login = record { type = text "login"; org_id = none; subject = none; payload = no_field }

empty_verified : (verify spacing empty_log).is_ok ≡ true
unfolding verify verify_chain verify_from
empty_verified = refl

verify-append_example :
    ((verify spacing (append spacing empty_log login 5).0).is_ok ≡ true)
    × (tail_hash genesis_hash (append spacing empty_log login 5).0.rows
        ≡ (append spacing empty_log login 5).1.1)
verify-append_example = verify-append spacing empty_log login 5 empty_verified

abbrev forged : List AuditRow
forged =
    record {
      seq = 1;
      content = record {
        type = text "login";
        org_id = none;
        subject = none;
        payload = no_field;
        recorded_at = 5;
      };
      prev_hash = genesis_hash;
      hash = [];
    }
    ∷ []

forged_reported : (verify_chain spacing forged).broken_at ≡ some 0
unfolding verify_chain verify_from hash_record spaced zeros ◌==◌
forged_reported = refl

verify_chain-broken_at_example :
    IsChained spacing genesis_hash (take 0 forged)
    × (¬ IsChained spacing genesis_hash (take 1 forged))
    × (0 < length forged)
verify_chain-broken_at_example = verify_chain-broken_at spacing forged 0 forged_reported
