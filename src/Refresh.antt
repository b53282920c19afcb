-- ===== src/Refresh.antt =====
-- The exchange of a refresh token (apps/api/src/authn/application/refresh.ts). What the token
-- generator, the issuer of access tokens and the random ids yield is an argument, and so is what the
-- store holds at each attempt to read the grace cache.
pub mod Accepted
pub mod Outcomes
pub mod Rotation
mod Tests
use accesscore.Prelude.{
  ℕ, zero, suc, ◌+◌, Bool, true, false, not, ◌&&◌, ◌||◌, List, [], ◌∷◌, ◌++◌, Option, none, some,
  leb, eqb, if◌then◌else◌, Text, get, put,
}
use accesscore.Refs.{Result, ok, err}
use accesscore.Sessions.{
  Session, TokenFamily, RefreshToken, token_active, GracePair, Store, ReuseEvent, is_active_session,
  is_active_family, is_active_token, find_session, find_family, find_by_hash, find_active_by_family,
  rotate, touch, revoke_for_reuse, revoke_session, revoke_key,
}

pub record RefreshResult : Type 0 where
  pub access_token : Text
  pub refresh_token : Text
  pub expires_in : ℕ

pub data RefreshError : Type 0 where
  invalid reuse : RefreshError

-- What is generated for one exchange: the id of the successor, its raw text and hash, the access
-- token and the seconds that it lives; and the configured seconds of the grace cache.
pub record Generated : Type 0 where
  pub successor_id : Text
  pub raw : Text
  pub hash : Text
  pub access_token : Text
  pub expires_in : ℕ
  pub grace_seconds : ℕ

abbrev pub race_retries : ℕ
race_retries = 6

-- The guards of `execute`: the token, its family and its session.
pub record Presented : Type 0 where
  pub token : RefreshToken
  pub family : TokenFamily
  pub session : Session

abbrev usable_session : ℕ → RefreshToken → TokenFamily → Option Session → Option Presented
usable_session now token family none = none
usable_session now token family (some session) =
    if not (is_active_session session) || leb session.expires_at now
    then none
    else some (record { token = token; family = family; session = session })

abbrev usable_family : Store → ℕ → RefreshToken → Option TokenFamily → Option Presented
usable_family st now token none = none
usable_family st now token (some family) =
    if not (is_active_family family)
    then none
    else usable_session now token family (find_session st family.session_id)

abbrev usable_token : Store → ℕ → Option RefreshToken → Option Presented
usable_token st now none = none
usable_token st now (some token) =
    if leb token.expires_at now
    then none
    else usable_family st now token (find_family st token.family_id)

unfoldable pub present : Text → ℕ → Store → Option Presented
present hash now st = usable_token st now (find_by_hash st hash)

abbrev pair_result : GracePair → RefreshResult
pair_result pair = record {
  access_token = pair.access_token;
  refresh_token = pair.refresh_token;
  expires_in = pair.expires_in;
}

abbrev matching : GracePair → Option RefreshToken → Option RefreshResult
matching pair none = none
matching pair (some active) =
    if eqb active.generation pair.successor_generation then some (pair_result pair) else none

-- `replayFromGrace`; `poll i` is the store that attempt `i` reads.
unfoldable pub replay_from_grace : (ℕ → Store) → RefreshToken → Text → ℕ → ℕ → Option RefreshResult
replay_from_grace poll token hash attempt zero = none
replay_from_grace poll token hash attempt (suc left) = elim (get hash (poll attempt).grace) [
  | some pair ↦ matching pair (find_active_by_family (poll attempt) token.family_id)
  | none ↦ replay_from_grace poll token hash (suc attempt) left
]

unfoldable pub successor_of : Generated → Presented → ℕ → RefreshToken
successor_of g p now = record {
  id = g.successor_id;
  family_id = p.token.family_id;
  token_hash = g.hash;
  generation = p.token.generation + 1;
  status = token_active;
  created_at = now;
  expires_at = p.session.expires_at;
  consumed_at = none;
}

abbrev new_pair : Generated → Presented → GracePair
new_pair g p = record {
  access_token = g.access_token;
  refresh_token = g.raw;
  expires_in = g.expires_in;
  successor_generation = p.token.generation + 1;
}

-- `put` of the grace cache, which keeps nothing for no time.
abbrev pub put_grace : ℕ → Text → GracePair → List (Text × GracePair) → List (Text × GracePair)
put_grace ttl_seconds hash pair grace = if leb ttl_seconds 0 then grace else put hash pair grace

-- The writes of a rotation that was won.
abbrev pub won_store : Generated → Presented → Text → ℕ → Store → Store
won_store g p hash now st =
    let touched = touch p.session.id now st in
    record touched { grace = put_grace g.grace_seconds hash (new_pair g p) touched.grace }

-- `later` is the store after the attempts of a rotation that was lost.
abbrev after_rotate :
    Generated
    → Presented
    → Text
    → ℕ
    → (ℕ → Store)
    → Store
    → Bool × Store
    → Option RefreshResult × Store
after_rotate g p hash now poll later (false, st) =
    (replay_from_grace poll p.token hash 0 race_retries, later)
after_rotate g p hash now poll later (true, st) =
    (some (pair_result (new_pair g p)), won_store g p hash now st)

unfoldable pub try_rotate :
    Generated → Presented → Text → ℕ → (ℕ → Store) → Store → Store → Option RefreshResult × Store
try_rotate g p hash now poll later st =
    after_rotate g p hash now poll later (rotate p.token.id (successor_of g p now) now st)

-- What follows where nothing was rotated and nothing replayed.
unfoldable pub report_reuse : Presented → ℕ → Store → Store
report_reuse p now st = revoke_key p.session.id (
    revoke_session p.session.id now (
      revoke_for_reuse
        (record {
          family_id = p.family.id;
          user_id = p.family.user_id;
          session_id = p.family.session_id;
          generation = p.token.generation;
          occurred_at = now;
        })
        st))

abbrev or_reuse :
    Presented → ℕ → Option RefreshResult × Store → Result RefreshResult RefreshError × Store
or_reuse p now (some r, st) = (ok r, st)
or_reuse p now (none, st) = (err reuse, report_reuse p now st)

-- `execute` after its guards: the store `st` at that time, those of the attempts and the last one.
unfoldable pub exchange :
    Generated
    → Presented
    → Text
    → ℕ
    → (ℕ → Store)
    → Store
    → Store
    → Result RefreshResult RefreshError × Store
exchange g p hash now poll later st = or_reuse p now (
    if is_active_token p.token
    then try_rotate g p hash now poll later st
    else (replay_from_grace poll p.token hash 0 1, later))

-- A whole run that no other request interrupts.
unfoldable pub execute : Generated → Text → ℕ → Store → Result RefreshResult RefreshError × Store
execute g hash now st = elim (present hash now st) [
  | none ↦ (err invalid, st)
  | some p ↦ exchange g p hash now (λ _. st) st st
]
