-- ===== src/Events/Snapshots.antt =====
-- What the live snapshot of a run says of its stream.
use mathlib.Core.Path.{ap, ◌∙◌}
use smart_class_agent.Common.{
  ◌<◌, ◌≡◌, refl, Option, some, length, arith, Result, ok, inl, inr, Option-cases,
}
use smart_class_agent.Run.{LiveSnapshot}
use smart_class_agent.Events.Store.{Redis}
use smart_class_agent.Events.Transport.{
  delivered, Network, Options, StoreError, get_snapshot, snapshot_of,
}
use smart_class_agent.Events.Consistency.{IsConsistent, output_of}
use smart_class_agent.Events.Ending.{execute_delivered}

module _ (R : Redis) (options : Options) (net : Network) (k : Redis.Keys R) (h : IsConsistent R k)
    (up : net 0 ≡ delivered) where
  open R use {Keys, stream, last_sequence, output}

  -- The snapshot of a stream with rows: its length and the text of its tokens.
  abbrev pub live : LiveSnapshot
  live = record { last_sequence = length (stream k); output_text = output_of (stream k) }

  snapshot_of-live :
      0 < length (stream k) → snapshot_of R options (last_sequence k) (output k) ≡ some live
  unfolding snapshot_of
  snapshot_of-live alive = elim (Option-cases (last_sequence k)) [
    | inl missing ↦ absurd (ground (arith, h.counted))
    | inr (n, there) ↦ rw there (rw (← h.printed) (ground (arith, h.counted, there)))
  ]

  pub get_snapshot-live : 0 < length (stream k) → get_snapshot R options net k ≡ ok (some live)
  unfolding get_snapshot
  get_snapshot-live alive =
      let reached =
        execute_delivered net
          (λ i k'. (k', some (snapshot_of R options (last_sequence k') (output k')))) k k
          (snapshot_of R options (last_sequence k) (output k)) up refl in
      ap {B = Result StoreError (Option LiveSnapshot)}
        (λ (r : Keys × Result StoreError (Option LiveSnapshot)). r.1) reached
      ∙ ap ok (snapshot_of-live alive)
