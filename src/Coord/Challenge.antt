-- ===== src/Coord/Challenge.antt =====
-- `ChallengeStore` of ghalbol_coord/src/auth.rs. `normalize` is normalize_identity_wire, which asks the crypto
-- libraries; a nonce that the random source makes is an argument.
use ghal_bol.Common.{
  ℕ, ◌+◌, ◌≡◌, Option, none, some, leb, ltb, ap, ◌∙◌, arith, refl, if◌then◌else◌, Result, ok, err,
  Text, text_eq, text_eq_iff, eq_of_text,
}
use ghal_bol.Common.Map
use ghal_bol.Common.Map.{Map, retain, get-remove}
use ghal_bol.Coord.Presence.{ServerError, unauthorized}

pub record PendingChallenge : Type 0 where
  pub nonce : Text
  pub expires_at : ℕ

abbrev pub ChallengeStore : Type 0
ChallengeStore = Map Text PendingChallenge

abbrev pub issue_for :
    ℕ
    → ℕ
    → Text
    → Result ServerError Text
    → ChallengeStore
    → ChallengeStore × Result ServerError PendingChallenge
issue_for now ttl nonce (err e) s = (s, err e)
issue_for now ttl nonce (ok key) s =
    let challenge : PendingChallenge = record { nonce = nonce; expires_at = now + ttl } in
    (Map.insert key challenge s, ok challenge)

-- The challenge is removed before it is checked.
abbrev pub found :
    ℕ
    → Text
    → Text
    → Option PendingChallenge
    → ChallengeStore
    → ChallengeStore × Result ServerError (Unit {0})
found now nonce key none s = (s, err unauthorized)
found now nonce key (some ch) s = (
  Map.remove key s,
  if ltb ch.expires_at now
      then err unauthorized
      else if text_eq ch.nonce nonce
      then ok tt
      else err unauthorized,
)

abbrev pub take_for :
    ℕ
    → Text
    → Result ServerError Text
    → ChallengeStore
    → ChallengeStore × Result ServerError (Unit {0})
take_for now nonce (err e) s = (s, err e)
take_for now nonce (ok key) s = found now nonce key (Map.get key s) s

unfoldable pub purge_expired : ℕ → ChallengeStore → ChallengeStore
purge_expired now s = retain (λ ch. leb now ch.expires_at) s

module _ (normalize : Text → Result ServerError Text) where
  unfoldable pub issue :
      ℕ → ℕ → Text → Text → ChallengeStore → ChallengeStore × Result ServerError PendingChallenge
  issue now ttl nonce identity_wire s = issue_for now ttl nonce (normalize identity_wire) s

  unfoldable pub take_valid :
      ℕ → Text → Text → ChallengeStore → ChallengeStore × Result ServerError (Unit {0})
  take_valid now identity_wire nonce s = take_for now nonce (normalize identity_wire) s

  gone_after :
      (now : ℕ) (nonce key : Text) (o : Option PendingChallenge) (s : ChallengeStore)
      → Map.get key s ≡ o
      → Map.get key (found now nonce key o s).0 ≡ none
  gone_after now nonce key none s e = e
  gone_after now nonce key (some ch) s e =
      ground (arith, get-remove key key s, (text_eq_iff key key).1 refl)

  -- Whatever it answers, a check of a challenge leaves none behind for its identity.
  take_valid_once :
      (now : ℕ) (identity_wire nonce key : Text) (s : ChallengeStore)
      → normalize identity_wire ≡ ok key
      → Map.get key (take_valid now identity_wire nonce s).0 ≡ none
  unfolding take_valid
  take_valid_once now identity_wire nonce key s e =
      ap (λ r. Map.get key (take_for now nonce r s).0) e
      ∙ gone_after now nonce key (Map.get key s) s refl
