-- ===== src/Delivery/Challenge/Replay.antt =====
-- As many challenges at most are accepted as were issued.
use ghal_bol.Common.{
  ℕ, ◌+◌, ◌≤◌, ◌≡◌, refl, ap, ◌∙◌, sym, Bool, true, false, Option, none, some, List, [], ◌∷◌, arith,
  leb, if◌then◌else◌, Result, ok, err, Text, text_eq, text_eq_iff, eq_of_text,
}
use ghal_bol.Common.Map
use ghal_bol.Common.Map.{
  Map, get-insert, get-remove, Unique, insert-Unique, remove-Unique, retain-Unique, retain,
  get-retain,
}
use ghal_bol.Delivery.Error.{DeliveryError}
use ghal_bol.Delivery.Challenge.{
  PendingChallenge, ChallengeStore, no_challenges, issue_session_for, session_found,
  take_session_for, issue_op_for, op_found, take_op_for, purge_expired, issue_session,
  take_session_valid, issue_op_nonce, take_op_valid,
}

-- The calls, with the time and the nonce of each.
pub data Call : Type 0 where
  issues_session issues_op : ℕ → ℕ → Text → Text → Call
  takes_session takes_op : ℕ → Text → Text → Call
  purges : ℕ → Call

abbrev accepted : {A : Type 0} → Result DeliveryError A → ℕ
accepted (ok a) = 1
accepted (err e) = 0

-- One, if the map has a challenge of the key.
abbrev pub held : Text → Map Text PendingChallenge → ℕ
held key m = if Map.contains key m then 1 else 0

held-insert :
    (key k : Text) (v : PendingChallenge) (m : Map Text PendingChallenge)
    → held key (Map.insert k v m) ≤ held key m + (if text_eq k key then 1 else 0)
held-insert key k v m = ground (arith, get-insert k key v m)

held-remove :
    (key k : Text) (m : Map Text PendingChallenge)
    → held key (Map.remove k m) ≡ (if text_eq k key then 0 else held key m)
held-remove key k m = ground (arith, get-remove k key m)

held-retain :
    (key : Text) (p : PendingChallenge → Bool) (m : Map Text PendingChallenge)
    → Unique m
    → held key (retain p m) ≤ held key m
held-retain key p m u = ground (arith, get-retain p key m u)

held-some :
    (key k : Text) (ch : PendingChallenge) (m : Map Text PendingChallenge)
    → Map.get k m ≡ some ch
    → text_eq k key ≡ true
    → held key m ≡ 1
held-some key k ch m g e =
    let g' : Map.get key m ≡ some ch =
      ap (λ (x : Text). Map.get x m) (sym ((text_eq_iff k key).0 e)) ∙ g in
    ground arith

-- How often calls for the normalized identity `key` have been answered.
pub record Counts : Type 0 where
  pub sessions_issued : ℕ
  pub sessions_taken : ℕ
  pub ops_issued : ℕ
  pub ops_taken : ℕ

abbrev pub nothing : Counts
nothing = record { sessions_issued = 0; sessions_taken = 0; ops_issued = 0; ops_taken = 0 }

abbrev pub is_key : Text → Result DeliveryError Text → Bool
is_key key (ok k) = text_eq k key
is_key key (err e) = false

module _ (normalize : Text → Result DeliveryError Text) (key : Text) where
  -- One if the identity is `key` and the call succeeds.
  abbrev counted : {A : Type 0} → Text → Result DeliveryError A → ℕ
  counted identity_wire r = if is_key key (normalize identity_wire) then accepted r else 0

  unfoldable pub step : Call → ChallengeStore × Counts → ChallengeStore × Counts
  step (issues_session now ttl nonce who) (c, n) =
      let r = issue_session normalize now ttl nonce who c in
      (r.0, record n { sessions_issued = n.sessions_issued + counted who r.1 })
  step (issues_op now ttl nonce who) (c, n) =
      let r = issue_op_nonce normalize now ttl nonce who c in
      (r.0, record n { ops_issued = n.ops_issued + counted who r.1 })
  step (takes_session now who nonce) (c, n) =
      let r = take_session_valid normalize now who nonce c in
      (r.0, record n { sessions_taken = n.sessions_taken + counted who r.1 })
  step (takes_op now who nonce) (c, n) =
      let r = take_op_valid normalize now who nonce c in
      (r.0, record n { ops_taken = n.ops_taken + counted who r.1 })
  step (purges now) (c, n) = (purge_expired now c, n)

  unfoldable pub run : List Call → ChallengeStore × Counts → ChallengeStore × Counts
  run [] s = s
  run (c ∷ cs) s = run cs (step c s)

  -- A challenge that is held has been issued and not taken.
  record Inv (s : ChallengeStore × Counts) : Type 0 where
    pub unique : Unique s.0.pending × Unique s.0.op_nonces
    pub sessions : s.1.sessions_taken + held key s.0.pending ≤ s.1.sessions_issued
    pub ops : s.1.ops_taken + held key s.0.op_nonces ≤ s.1.ops_issued

  session_issued :
      (now ttl : ℕ) (nonce : Text) (o : Result DeliveryError Text) (c : ChallengeStore) (n : Counts)
      → Inv (c, n)
      → Inv (
        (issue_session_for now ttl nonce o c).0,
        record n {
          sessions_issued =
              n.sessions_issued
              + (if is_key key o then accepted (issue_session_for now ttl nonce o c).1 else 0);
        },
      )
  session_issued now ttl nonce (err e) c n v = record {
    unique = v.unique;
    sessions = omega (arith, v.sessions);
    ops = v.ops;
  }
  session_issued now ttl nonce (ok k) c n v = record {
    unique = (insert-Unique k _ c.pending v.unique.0, v.unique.1);
    sessions = ground (
      arith,
      v.sessions,
      held-insert key k (record { nonce = nonce; expires_at = now + ttl }) c.pending,
    );
    ops = v.ops;
  }

  op_issued :
      (now ttl : ℕ) (nonce : Text) (o : Result DeliveryError Text) (c : ChallengeStore) (n : Counts)
      → Inv (c, n)
      → Inv (
        (issue_op_for now ttl nonce o c).0,
        record n {
          ops_issued =
              n.ops_issued
              + (if is_key key o then accepted (issue_op_for now ttl nonce o c).1 else 0);
        },
      )
  op_issued now ttl nonce (err e) c n v = record {
    unique = v.unique;
    sessions = v.sessions;
    ops = omega (arith, v.ops);
  }
  op_issued now ttl nonce (ok k) c n v = record {
    unique = (v.unique.0, insert-Unique k _ c.op_nonces v.unique.1);
    sessions = v.sessions;
    ops = ground (
      arith,
      v.ops,
      held-insert key k (record { nonce = nonce; expires_at = now + ttl }) c.op_nonces,
    );
  }

  session_met :
      (now : ℕ) (nonce k : Text) (o : Option PendingChallenge) (c : ChallengeStore) (n : Counts)
      → Map.get k c.pending ≡ o
      → Inv (c, n)
      → Inv (
        (session_found now nonce k o c).0,
        record n {
          sessions_taken =
              n.sessions_taken
              + (if text_eq k key then accepted (session_found now nonce k o c).1 else 0);
        },
      )
  session_met now nonce k none c n g v = record {
    unique = v.unique;
    sessions = ground (arith, v.sessions);
    ops = v.ops;
  }
  session_met now nonce k (some ch) c n g v = record {
    unique = (remove-Unique k c.pending v.unique.0, v.unique.1);
    sessions = ground (
      arith,
      v.sessions,
      held-remove key k c.pending,
      text_eq_iff k key,
      held-some key k ch c.pending g,
    );
    ops = v.ops;
  }

  op_met :
      (now : ℕ) (nonce k : Text) (o : Option PendingChallenge) (c : ChallengeStore) (n : Counts)
      → Map.get k c.op_nonces ≡ o
      → Inv (c, n)
      → Inv (
        (op_found now nonce k o c).0,
        record n {
          ops_taken =
              n.ops_taken + (if text_eq k key then accepted (op_found now nonce k o c).1 else 0);
        },
      )
  op_met now nonce k none c n g v = record {
    unique = v.unique;
    sessions = v.sessions;
    ops = ground (arith, v.ops);
  }
  op_met now nonce k (some ch) c n g v = record {
    unique = (
      ground (arith, v.unique.0),
      ground (arith, v.unique.1, remove-Unique k c.op_nonces v.unique.1),
    );
    sessions = ground (arith, v.sessions);
    ops = ground (
      arith,
      v.ops,
      held-remove key k c.op_nonces,
      text_eq_iff k key,
      held-some key k ch c.op_nonces g,
    );
  }

  session_taken :
      (now : ℕ) (nonce : Text) (o : Result DeliveryError Text) (c : ChallengeStore) (n : Counts)
      → Inv (c, n)
      → Inv (
        (take_session_for now nonce o c).0,
        record n {
          sessions_taken =
              n.sessions_taken
              + (if is_key key o then accepted (take_session_for now nonce o c).1 else 0);
        },
      )
  session_taken now nonce (err e) c n v = record {
    unique = v.unique;
    sessions = omega (arith, v.sessions);
    ops = v.ops;
  }
  session_taken now nonce (ok k) c n v = session_met now nonce k (Map.get k c.pending) c n refl v

  op_taken :
      (now : ℕ) (nonce : Text) (o : Result DeliveryError Text) (c : ChallengeStore) (n : Counts)
      → Inv (c, n)
      → Inv (
        (take_op_for now nonce o c).0,
        record n {
          ops_taken =
              n.ops_taken + (if is_key key o then accepted (take_op_for now nonce o c).1 else 0);
        },
      )
  op_taken now nonce (err e) c n v = record {
    unique = v.unique;
    sessions = v.sessions;
    ops = omega (arith, v.ops);
  }
  op_taken now nonce (ok k) c n v = op_met now nonce k (Map.get k c.op_nonces) c n refl v

  step-Inv : (c : Call) (s : ChallengeStore × Counts) → Inv s → Inv (step c s)
  unfolding step issue_session take_session_valid issue_op_nonce take_op_valid purge_expired
  step-Inv (issues_session now ttl nonce who) (c, n) v =
      session_issued now ttl nonce (normalize who) c n v
  step-Inv (issues_op now ttl nonce who) (c, n) v = op_issued now ttl nonce (normalize who) c n v
  step-Inv (takes_session now who nonce) (c, n) v = session_taken now nonce (normalize who) c n v
  step-Inv (takes_op now who nonce) (c, n) v = op_taken now nonce (normalize who) c n v
  step-Inv (purges now) (c, n) v =
      let live : PendingChallenge → Bool = λ ch. leb now ch.expires_at in
      record {
        unique =
            (retain-Unique live c.pending v.unique.0, retain-Unique live c.op_nonces v.unique.1);
        sessions = omega (arith, v.sessions, held-retain key live c.pending v.unique.0);
        ops = omega (arith, v.ops, held-retain key live c.op_nonces v.unique.1);
      }

  run-Inv : (cs : List Call) (s : ChallengeStore × Counts) → Inv s → Inv (run cs s)
  unfolding run
  run-Inv [] s v = v
  run-Inv (c ∷ cs) s v = run-Inv cs (step c s) (step-Inv c s v)

  -- Whatever calls come at whatever times, for any way to normalize an identity: no more session
  -- challenges are accepted for an identity than were issued to it, and no more operation nonces.
  pub no_replay :
      (cs : List Call)
      → ((run cs (no_challenges, nothing)).1.sessions_taken
          ≤ (run cs (no_challenges, nothing)).1.sessions_issued)
        × ((run cs (no_challenges, nothing)).1.ops_taken
            ≤ (run cs (no_challenges, nothing)).1.ops_issued)
  unfolding Map.get
  no_replay cs =
      let v =
        run-Inv cs (no_challenges, nothing)
          (record { unique = (tt, tt); sessions = omega arith; ops = omega arith }) in
      (omega (arith, v.sessions), omega (arith, v.ops))
