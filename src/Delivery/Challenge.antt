-- ===== src/Delivery/Challenge.antt =====
-- `ChallengeStore` of ghalbol_delivery/src/auth.rs. `normalize` is normalize_identity_wire, which asks the
-- crypto libraries; a nonce that the random source makes is an argument.
pub mod Replay
use ghal_bol.Common.{
  ℕ, ◌+◌, Bool, true, false, not, Option, none, some, List, [], leb, ltb, if◌then◌else◌, Result, ok,
  err, Text, text_eq, eq_of_text,
}
use ghal_bol.Common.Map
use ghal_bol.Common.Map.{Map, retain}
use ghal_bol.Delivery.Error.{DeliveryError, unauthorized, Checked}

pub record PendingChallenge : Type 0 where
  pub nonce : Text
  pub expires_at : ℕ

pub record ChallengeStore : Type 0 where
  pub pending : Map Text PendingChallenge
  pub op_nonces : Map Text PendingChallenge

abbrev pub no_challenges : ChallengeStore
no_challenges = record { pending = []; op_nonces = [] }

-- `Instant::now() > ch.expires_at`, and the nonce of the call.
abbrev pub check : ℕ → Text → PendingChallenge → Checked
check now nonce ch =
    if ltb ch.expires_at now
    then err unauthorized
    else if text_eq ch.nonce nonce
    then ok tt
    else err unauthorized

abbrev pub issue_session_for :
    ℕ
    → ℕ
    → Text
    → Result DeliveryError Text
    → ChallengeStore
    → ChallengeStore × Result DeliveryError PendingChallenge
issue_session_for now ttl nonce (err e) c = (c, err e)
issue_session_for now ttl nonce (ok key) c =
    let challenge : PendingChallenge = record { nonce = nonce; expires_at = now + ttl } in
    (record c { pending = Map.insert key challenge c.pending }, ok challenge)

abbrev pub session_found :
    ℕ → Text → Text → Option PendingChallenge → ChallengeStore → ChallengeStore × Checked
session_found now nonce key none c = (c, err unauthorized)
session_found now nonce key (some ch) c =
    (record c { pending = Map.remove key c.pending }, check now nonce ch)

abbrev pub take_session_for :
    ℕ → Text → Result DeliveryError Text → ChallengeStore → ChallengeStore × Checked
take_session_for now nonce (err e) c = (c, err e)
take_session_for now nonce (ok key) c = session_found now nonce key (Map.get key c.pending) c

abbrev pub issue_op_for :
    ℕ
    → ℕ
    → Text
    → Result DeliveryError Text
    → ChallengeStore
    → ChallengeStore × Result DeliveryError Text
issue_op_for now ttl nonce (err e) c = (c, err e)
issue_op_for now ttl nonce (ok key) c = (
  record c {
    op_nonces = Map.insert key (record { nonce = nonce; expires_at = now + ttl }) c.op_nonces;
  },
  ok nonce,
)

-- A nonce of another call stays for its own; one whose time is up goes.
abbrev pub op_found :
    ℕ → Text → Text → Option PendingChallenge → ChallengeStore → ChallengeStore × Checked
op_found now nonce key none c = (c, err unauthorized)
op_found now nonce key (some ch) c =
    let gone : ChallengeStore = record c { op_nonces = Map.remove key c.op_nonces } in
    if ltb ch.expires_at now
    then (gone, err unauthorized)
    else if text_eq ch.nonce nonce
    then (gone, ok tt)
    else (c, err unauthorized)

abbrev pub take_op_for :
    ℕ → Text → Result DeliveryError Text → ChallengeStore → ChallengeStore × Checked
take_op_for now nonce (err e) c = (c, err e)
take_op_for now nonce (ok key) c = op_found now nonce key (Map.get key c.op_nonces) c

unfoldable pub purge_expired : ℕ → ChallengeStore → ChallengeStore
purge_expired now c = record {
  pending = retain (λ ch. leb now ch.expires_at) c.pending;
  op_nonces = retain (λ ch. leb now ch.expires_at) c.op_nonces;
}

module _ (normalize : Text → Result DeliveryError Text) where
  unfoldable pub issue_session :
      ℕ → ℕ → Text → Text → ChallengeStore → ChallengeStore × Result DeliveryError PendingChallenge
  issue_session now ttl nonce identity_wire c =
      issue_session_for now ttl nonce (normalize identity_wire) c

  unfoldable pub take_session_valid : ℕ → Text → Text → ChallengeStore → ChallengeStore × Checked
  take_session_valid now identity_wire nonce c =
      take_session_for now nonce (normalize identity_wire) c

  unfoldable pub issue_op_nonce :
      ℕ → ℕ → Text → Text → ChallengeStore → ChallengeStore × Result DeliveryError Text
  issue_op_nonce now ttl nonce identity_wire c =
      issue_op_for now ttl nonce (normalize identity_wire) c

  unfoldable pub take_op_valid : ℕ → Text → Text → ChallengeStore → ChallengeStore × Checked
  take_op_valid now identity_wire nonce c = take_op_for now nonce (normalize identity_wire) c
