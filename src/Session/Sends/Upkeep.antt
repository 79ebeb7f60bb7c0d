-- ===== src/Session/Sends/Upkeep.antt =====
-- The pass over both queues of acknowledgements.
use ghal_bol.Common.{
  ℕ, ◌≡◌, refl, ap, ◌∙◌, Bool, true, false, not, ◌&&◌, [], ◌++◌, keep_if, map, take, length,
  if◌then◌else◌, Text,
}
use ghal_bol.Session.State.{SessionState}
use ghal_bol.Session.Acks.{delivery_queued, delivery_acks_due_for_upkeep, read_acks_due_for_upkeep}
use ghal_bol.Session.Sends.{
  received_frame, read_frame, Wire, Pass, deliver_items, is_tried, run_ack_upkeep_limited,
}
use ghal_bol.Session.Sends.Exact.{
  delivered_to, reads_to, reads_of, is_among, append_none, delivered-Counted, read-Counted,
  deliver_items-frames, deliver_items-queued, deliver_items-reads, read_items-rest, same-tried,
  read_items-frames,
}

-- The frames of a pass, their count, and the delivery acknowledgements that wait after it.
abbrev pub IsExact : Wire → ℕ → Bool → SessionState → Pass → Type 0
IsExact w limit include_read s p =
    (p.frames
      ≡ map received_frame (keep_if (λ i. w.connected i.peer) (take limit s.pending_delivery_acks))
        ++ (if include_read
            then map read_frame (keep_if (is_tried w s) (take limit s.pending_read_acks))
            else []))
    × ((p.done ≡ length (keep_if w.sends p.frames))
        × ((id : Text)
            → delivery_queued id p.session.pending_delivery_acks
              ≡ delivery_queued id s.pending_delivery_acks
                && not (is_among w id (take limit s.pending_delivery_acks))))

module _ (w : Wire) (limit : ℕ) (s : SessionState) where
  abbrev start : Pass
  start = record { session = s; done = 0; frames = [] }

  abbrev delivered : Pass
  delivered = deliver_items w (take limit s.pending_delivery_acks) start

  same_reads : reads_of w delivered.session ≡ reads_of w s
  same_reads = deliver_items-reads w (take limit s.pending_delivery_acks) start

  -- A pass with the limit tries one frame for each of the first entries of either queue whose peer is connected and, of the reads, that is neither confirmed nor of an open room that may not acknowledge; it counts those that went out, and takes exactly the delivery acknowledgements that went out from those that wait.
  pub upkeep-IsExact :
      (include_read : Bool)
      → IsExact w limit include_read s (run_ack_upkeep_limited w limit include_read s)
  unfolding run_ack_upkeep_limited delivery_acks_due_for_upkeep read_acks_due_for_upkeep
  upkeep-IsExact false = (
    deliver_items-frames w (take limit s.pending_delivery_acks) start ∙ append_none _,
    (
      delivered-Counted w (take limit s.pending_delivery_acks) start refl,
      λ id. deliver_items-queued w id (take limit s.pending_delivery_acks) start,
    ),
  )
  upkeep-IsExact true =
      let reads = take limit delivered.session.pending_read_acks in
      (
        read_items-frames w reads delivered
            ∙ ((λ i.
                  (deliver_items-frames w (take limit s.pending_delivery_acks) start i)
                  ++ reads_to w delivered.session (take limit (same_reads i).0))
                ∙ ap (λ fs. delivered_to w (take limit s.pending_delivery_acks) ++ fs)
                    (same-tried w delivered.session s (take limit s.pending_read_acks)
                      (ap (λ r. r.1) same_reads))),
        (
          read-Counted w reads delivered
              (delivered-Counted w (take limit s.pending_delivery_acks) start refl),
          λ id.
              ap (λ r. delivery_queued id r.0) (read_items-rest w reads delivered)
              ∙ deliver_items-queued w id (take limit s.pending_delivery_acks) start,
        ),
      )
