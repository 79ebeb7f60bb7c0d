-- ===== src/Session/Signals/Order.antt =====
-- What a pass over the waiting call signals does to their order.
use ghal_bol.Common.{
  ℕ, ◌+◌, ◌≤◌, ◌≡◌, refl, ap, ◌∙◌, sym, inl, inr, Bool, true, not, List, [], ◌∷◌, ◌++◌, arith, ltb,
  length, take, drop, length-take, length-drop, min, keep_if, map, Bool-cases,
}
use mathlib.Core.List.{append_assoc}
use ghal_bol.Session.State.{SessionState, PendingCallSignal}
use ghal_bol.Session.Signals.{
  call_signals_max, drain_pending_call_signals, requeue_pending_call_signal_front, CallSignalSent,
  sent_event, flush_batch, flush_pending_call_signals,
}

-- The signals of a list, last one first.
abbrev pub backwards : List PendingCallSignal → List PendingCallSignal
backwards [] = []
backwards (x ∷ xs) = backwards xs ++ x ∷ []

module _ (goes : PendingCallSignal → Bool) where
  batch_flushed :
      (batch : List PendingCallSignal) (s : SessionState)
      → length s.pending_call_signals + length batch ≤ call_signals_max
      → flush_batch goes batch s ≡ (
        record s {
          pending_call_signals =
              backwards (keep_if (λ c. not (goes c)) batch) ++ s.pending_call_signals;
        },
        map sent_event (keep_if goes batch),
      )
  unfolding flush_batch requeue_pending_call_signal_front
  batch_flushed [] s h = refl
  batch_flushed (c ∷ batch) s h = elim (Bool-cases (goes c)) [
    | inl out ↦ rw out (
        ap (λ (r : SessionState × List CallSignalSent). (r.0, sent_event c ∷ r.1))
          (batch_flushed batch s (omega (arith, h))))
    | inr stuck ↦
        let room : ltb (length s.pending_call_signals) call_signals_max ≡ true = ground arith in
        let s' = record s { pending_call_signals = c ∷ s.pending_call_signals } in
        let later = backwards (keep_if (λ x. not (goes x)) batch) in
        rw (stuck, room)
          (batch_flushed batch s' (omega (arith, h))
            ∙ ap
                (λ (q : List PendingCallSignal).
                  (record s { pending_call_signals = q }, map sent_event (keep_if goes batch)))
                (sym (append_assoc later (c ∷ []) s.pending_call_signals)))
  ]

  -- A pass over at most 128 waiting signals takes the first 32: those that can go are reported as sent in
  -- their order, and the others are put back in front of the rest, the last one first. None is lost.
  pub flush_order :
      (s : SessionState) (n : ℕ)
      → n ≡ min 32 (length s.pending_call_signals)
      → length s.pending_call_signals ≤ call_signals_max
      → flush_pending_call_signals goes s ≡ (
        record s {
          pending_call_signals =
              backwards (keep_if (λ c. not (goes c)) (take n s.pending_call_signals))
              ++ drop n s.pending_call_signals;
        },
        map sent_event (keep_if goes (take n s.pending_call_signals)),
      )
  unfolding flush_pending_call_signals drain_pending_call_signals
  flush_order s n e h =
      let q = s.pending_call_signals in
      rw e (
        batch_flushed (take (min 32 (length q)) q)
          (record s { pending_call_signals = drop (min 32 (length q)) q })
          (omega (arith, h, length-take (min 32 (length q)) q, length-drop (min 32 (length q)) q)))
