-- ===== src/Rooms/Replay/Gapless.antt =====
-- What a client that reconnects is given.
use real_time_spatial_tracki.Base.{
  ℕ, ◌+◌, ◌≤◌, ◌<◌, ◌≡◌, ◌⊎◌, refl, subst, inl, inr, ◌&&◌, List, [], ◌∷◌, Option, Key, arith, leb,
  ltb, ◌==◌, or_default, Bool-cases, ltb→lt, ltb_false→le, filter,
}
use real_time_spatial_tracki.Rooms.{Entry, Manager}
use real_time_spatial_tracki.Rooms.Delivery.{seq_of, buffer_of}
use real_time_spatial_tracki.Rooms.Delivery.Ring.{Runs}
use real_time_spatial_tracki.Rooms.Replay.{
  Reconnected, replay_complete, replay, replay_gap, reconnect, answer,
}

module _ {P : Type 0} where
  filter_later :
      (from lo hi : ℕ) (es : List (Entry P))
      → from ≤ lo
      → Runs lo es hi
      → filter (λ e. ltb from e.seq) es ≡ es
  filter_later from lo hi [] h run = refl
  filter_later from lo hi (e ∷ es) h run =
      ground (arith, run.0, filter_later from (lo + 1) hi es (omega arith) run.1)

  -- The entries after `from` of a run that covers it are the run from there.
  filter-Runs :
      (from lo hi : ℕ) (es : List (Entry P))
      → lo ≤ from
      → from ≤ hi
      → Runs lo es hi
      → Runs from (filter (λ e. ltb from e.seq) es) hi
  filter-Runs from lo hi [] h k run = omega arith
  filter-Runs from lo hi (e ∷ es) h k run = elim (Bool-cases (ltb from e.seq)) [
    | inl later ↦
        let at : lo ≡ from = omega (arith, run.0, ltb→lt from e.seq later) in
        rw (later, filter_later from (lo + 1) hi es (omega arith) run.1)
          (omega (arith, run.0), subst (λ n. Runs (n + 1) es hi) at run.1)
    | inr early ↦ rw early (
        filter-Runs from (lo + 1) hi es (omega (arith, run.0, ltb_false→le from e.seq early)) k
          run.1)
  ]

  -- What each answer tells a client that has everything up to `from`, of a room whose buffer holds
  -- what follows `lo` up to the current number.
  abbrev pub Tells : Reconnected P → ℕ → ℕ → ℕ → Type 0
  Tells replay_complete lo from current = from ≡ current
  Tells (replay missed now) lo from current =
      (now ≡ current) × (lo ≤ from) × (from < current) × Runs from missed current
  Tells (replay_gap oldest now) lo from current = (now ≡ current) × ((from < lo) ⊎ (current < from))

  answer-Tells :
      (lo from current : ℕ) (buffer : List (Entry P))
      → Runs lo buffer current
      → Tells (answer from current buffer) lo from current
  unfolding answer
  answer-Tells lo from current [] run = ground arith
  answer-Tells lo from current (e ∷ es) run = elim (Bool-cases (from == current)) [
    | inl same ↦ rw same (ground arith)
    | inr other ↦ elim (Bool-cases (leb e.seq (from + 1) && ltb from current)) [
      | inl held ↦
          let le : lo ≤ from = ground (arith, run.0) in
          let lt : from < current = ground arith in
          rw (other, held) (refl, le, lt, filter-Runs from lo current (e ∷ es) le (omega arith) run)
      | inr lost ↦ rw (other, lost) (refl, ground (arith, run.0))
    ]
  ]

module _ {W P : Type 0} (r : Key) (last_seq : ℕ) (acked : Option ℕ) (m : Manager W P) where
  -- On a buffer without gaps the answer to a reconnection is right in each of its three forms: complete
  -- only for a client that has everything; a replay of exactly the messages after the client's
  -- number, in order and without a gap; and a gap only if one of these is no longer held, or the
  -- client's number is ahead of the room's.
  pub reconnect-Tells :
      (lo : ℕ)
      → Runs lo (buffer_of r m) (seq_of r m)
      → Tells (reconnect r last_seq acked m) lo (or_default acked last_seq) (seq_of r m)
  unfolding reconnect
  reconnect-Tells lo run =
      answer-Tells lo (or_default acked last_seq) (seq_of r m) (buffer_of r m) run
