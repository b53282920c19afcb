-- ===== src/Refresh/Tests.antt =====
-- Runs of the exchange of a refresh token (refresh.ts): one session with one family and one token.
use accesscore.Prelude.{
  ◌≡◌, refl, ◌⊎◌, true, false, [], ◌∷◌, none, some, arith, text, ◌==◌, ne_of_false,
}
use accesscore.Refs.{err}
use accesscore.Sessions.{
  Session, session_active, TokenFamily, family_active, RefreshToken, token_active, Store, rotate,
  find_by_hash, find_family, terminate_session, revoke_for_reuse, revoke_session, revoke_key,
  revoke_by_session,
}
use accesscore.Refresh.{
  invalid, Generated, Presented, exchange, execute, report_reuse, successor_of,
}
use accesscore.Refresh.Outcomes.{IsRotated, IsReplayed, IsReused, execute-IsUsable}
use accesscore.Refresh.Accepted.{IsUsable, execute-report_reuse, execute-terminate_session}
use accesscore.Refresh.Rotation.{HasOneActive, active_count, rotate_once, exchange-HasOneActive}

abbrev session : Session
session = record {
  id = text "s1";
  user_id = text "u1";
  org_id = none;
  aal = 1;
  auth_time = 0;
  status = session_active;
  device_label = none;
  user_agent = none;
  ip = none;
  created_at = 0;
  last_seen_at = 0;
  expires_at = 100;
  revoked_at = none;
}

abbrev family : TokenFamily
family = record {
  id = text "f1";
  user_id = text "u1";
  session_id = text "s1";
  status = family_active;
  created_at = 0;
  revoked_at = none;
  revoked_reason = none;
}

abbrev token : RefreshToken
token = record {
  id = text "t1";
  family_id = text "f1";
  token_hash = text "h1";
  generation = 1;
  status = token_active;
  created_at = 0;
  expires_at = 100;
  consumed_at = none;
}

abbrev one_session : Store
one_session = record {
  sessions = session ∷ [];
  families = family ∷ [];
  tokens = token ∷ [];
  outbox = [];
  grace = [];
  revoked = [];
}

abbrev second : Generated
second = record {
  successor_id = text "t2";
  raw = text "r2";
  hash = text "h2";
  access_token = text "a2";
  expires_in = 900;
  grace_seconds = 10;
}

abbrev presented : Presented
presented = record { token = token; family = family; session = session }

execute-IsUsable_example :
    ((execute second (text "h1") 10 one_session ≡ (err invalid, one_session))
      × ((p : Presented) → ¬ IsUsable (text "h1") 10 one_session p))
    ⊎ ((p : Presented) × IsUsable (text "h1") 10 one_session p
        × (IsRotated second (text "h1") 10 one_session p
            ⊎ (IsReplayed second (text "h1") 10 one_session p
                ⊎ IsReused second (text "h1") 10 one_session p)))
execute-IsUsable_example = execute-IsUsable second (text "h1") 10 one_session

reported :
    (t : RefreshToken) × (find_by_hash (report_reuse presented 10 one_session) (text "h1") ≡ some t)
    × (t.family_id ≡ text "f1")
unfolding find_by_hash report_reuse revoke_for_reuse revoke_session revoke_key ◌==◌ text
reported = (_, refl, refl)

execute-report_reuse_example :
    (execute second (text "h1") 20 (report_reuse presented 10 one_session)
      ≡ (err invalid, report_reuse presented 10 one_session))
    × (elim reported.0.status [ token_active ↦ true | _ ↦ false ] ≡ false)
execute-report_reuse_example =
    execute-report_reuse second presented 10 20 (text "h1") one_session reported.0 reported.1
      reported.2

ended :
    (t : RefreshToken) × (f : TokenFamily) × (find_by_hash
        (terminate_session (text "s1") 10 one_session)
        (text "h1")
      ≡ some t)
    × (find_family (terminate_session (text "s1") 10 one_session) t.family_id ≡ some f)
    × (f.session_id ≡ text "s1")
unfolding find_by_hash find_family terminate_session revoke_by_session revoke_session revoke_key
    ◌==◌ text
ended = (_, _, refl, refl, refl)

execute-terminate_session_example :
    execute second (text "h1") 20 (terminate_session (text "s1") 10 one_session)
    ≡ (err invalid, terminate_session (text "s1") 10 one_session)
execute-terminate_session_example =
    execute-terminate_session second (text "s1") (text "h1") 10 20 one_session ended.0 ended.1
      ended.2 ended.3 ended.4

abbrev successor : RefreshToken
successor = successor_of second presented 10

rotate_once_example :
    rotate (text "t1") successor 11 (rotate (text "t1") successor 10 one_session).1
    ≡ (false, (rotate (text "t1") successor 10 one_session).1)
unfolding rotate ◌==◌ text successor_of
rotate_once_example =
    rotate_once (text "t1") successor successor 10 11 one_session (ne_of_false refl) refl

one_active : HasOneActive one_session
unfolding active_count
one_active f = ground arith

exchange-HasOneActive_example :
    HasOneActive
      (exchange second presented (text "h1") 10 (λ _. one_session) one_session one_session).1
exchange-HasOneActive_example =
    exchange-HasOneActive second presented (text "h1") 10 (λ _. one_session) one_session one_session
      ((λ e. refl), tt) one_active one_active
