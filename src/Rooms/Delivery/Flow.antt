-- ===== src/Rooms/Delivery/Flow.antt =====
-- The window of messages that a client has not acknowledged.
use real_time_spatial_tracki.Base.{
  ℕ, ◌+◌, ◌-◌, ◌≤◌, ◌<◌, ◌≡◌, ◌⊎◌, refl, sym, ap, ◌∙◌, subst, inl, inr, Bool, true, false, ◌&&◌,
  ◌||◌, [], ◌∷◌, Option, some, Key, arith, leb, if◌then◌else◌, Bool-cases, key_dec, ite, if_pos,
  if_neg, max,
}
use real_time_spatial_tracki.Base.Map
use real_time_spatial_tracki.Base.Map.{Map}
use real_time_spatial_tracki.Rooms.{Manager, AckState}
use real_time_spatial_tracki.Rooms.Delivery.{
  ack_of, acks_of, put_ack, offer, offer_ack, send_all, fresh_ack,
}
use real_time_spatial_tracki.Rooms.Replay.{acknowledge}

-- The count stays within the window, and a client is paused only while its window is full.
pub record IsFlowing (window : ℕ) (a : AckState) : Type 0 where
  pub within : a.unacked_count ≤ window
  pub full : a.paused ≡ true → window ≤ a.unacked_count

pub fresh-IsFlowing : (window : ℕ) → IsFlowing window fresh_ack
fresh-IsFlowing window = record { within = omega arith; full = λ h. cc }

-- From a well-formed window, an offer leaves a well-formed window; it succeeds, and counts one
-- more, exactly while fewer messages are unacknowledged than the window allows, and otherwise it
-- pauses the client and changes nothing else.
pub offer_ack_lem :
    (window : ℕ) (a : AckState)
    → IsFlowing window a
    → IsFlowing window (offer_ack window a).0
      × (((offer_ack window a).1 ≡ true)
            × (a.unacked_count < window)
            × ((offer_ack window a).0.unacked_count ≡ a.unacked_count + 1)
          ⊎ ((offer_ack window a).1 ≡ false)
            × (a.unacked_count ≡ window)
            × ((offer_ack window a).0 ≡ record a { paused = true }))
unfolding offer_ack
offer_ack_lem window a v = elim (Bool-cases (a.paused || leb window a.unacked_count)) [
  | inl shut ↦
      let at : a.unacked_count ≡ window = full_at shut in
      rw shut (record { within = v.within; full = λ _. omega arith }, inr (refl, at, refl))
  | inr open_window ↦ rw open_window (
    record { within = ground arith; full = λ h. absurd (ground arith) },
    inl (refl, ground arith, refl),
  )
]
  where
    full_at : (a.paused || leb window a.unacked_count) ≡ true → a.unacked_count ≡ window
    full_at h = elim (Bool-cases a.paused) [
      | inl p ↦ omega (arith, v.full p, v.within)
      | inr p ↦ ground (arith, v.within)
    ]

-- From a well-formed window of a given size, an acknowledgment leaves a well-formed window, raises
-- the highest number acknowledged to the acknowledged one if that is greater, takes the difference
-- off the count, and leaves the client paused exactly if it was and the count still fills the
-- window.
pub acknowledge_lem :
    (window seq : ℕ) (a : AckState)
    → IsFlowing window a
    → IsFlowing window (acknowledge (some window) seq a)
      × ((acknowledge (some window) seq a).highest_acked_seq ≡ max a.highest_acked_seq seq)
      × ((acknowledge (some window) seq a).unacked_count
          ≡ a.unacked_count - (seq - a.highest_acked_seq))
      × ((acknowledge (some window) seq a).paused
          ≡ (a.paused && leb window (a.unacked_count - (seq - a.highest_acked_seq))))
unfolding acknowledge
acknowledge_lem window seq a v = (
  record { within = ground (arith, v.within); full = λ h. ground arith },
  ground arith,
  ground arith,
  ground arith,
)

module _ {W P : Type 0} where
  pub ack_of-put_ack :
      (d s c r : Key) (a : AckState) (m : Manager W P)
      → ack_of d s (put_ack c r a m)
        ≡ ite (key_dec c d) (ite (key_dec r s) a (ack_of d s m)) (ack_of d s m)
  unfolding put_ack
  ack_of-put_ack d s c r a m = ground (
    arith,
    Map.get-set d c (Map.set r a (acks_of c m)) m.ack_state,
    Map.get-set s r a (acks_of c m),
  )

  -- Every client's window in every room.
  abbrev pub AllFlow : ℕ → Manager W P → Type 0
  AllFlow window m = (d s : Key) → IsFlowing window (ack_of d s m)

  put_ack-AllFlow :
      (window : ℕ) (c r : Key) (a : AckState) (m : Manager W P)
      → IsFlowing window a
      → AllFlow window m
      → AllFlow window (put_ack c r a m)
  put_ack-AllFlow window c r a m va v d s = rw (ack_of-put_ack d s c r a m) (elim (key_dec c d) [
    | no p ↦ rw (if_neg (key_dec c d) p _ (ack_of d s m)) (v d s)
    | yes p ↦ rw (if_pos (key_dec c d) p _ (ack_of d s m)) (elim (key_dec r s) [
      | yes q ↦ rw (if_pos (key_dec r s) q a (ack_of d s m)) va
      | no q ↦ rw (if_neg (key_dec r s) q a (ack_of d s m)) (v d s)
    ])
  ])

  -- What an offer and the skipping of a member leave.
  abbrev Kept : ℕ → Manager W P → Type 0
  Kept window m = AllFlow window m × (m.config.ack_window_size ≡ some window)

  offer-at :
      (window : ℕ) (c r : Key) (m : Manager W P)
      → m.config.ack_window_size ≡ some window
      → (offer c r m).0 ≡ put_ack c r (offer_ack window (ack_of c r m)).0 m
  unfolding offer
  offer-at window c r m e = ground arith

  put_ack-config :
      (c r : Key) (a : AckState) (m : Manager W P) → (put_ack c r a m).config ≡ m.config
  unfolding put_ack
  put_ack-config c r a m = refl

  offer-Kept :
      (window : ℕ) (c r : Key) (m : Manager W P) → Kept window m → Kept window (offer c r m).0
  offer-Kept window c r m k =
      let a = (offer_ack window (ack_of c r m)).0 in
      subst (Kept window) (sym (offer-at window c r m k.1)) (
        put_ack-AllFlow window c r a m (offer_ack_lem window (ack_of c r m) (k.0 c r)).0 k.0,
        ap (λ config. config.ack_window_size) (put_ack-config c r a m) ∙ k.1,
      )

  skip-Kept :
      (window : ℕ) (c r : Key) (m : Manager W P) (skip : Bool)
      → Kept window m
      → Kept window (if skip then (m, false) else offer c r m).0
  skip-Kept window c r m true k = k
  skip-Kept window c r m false k = offer-Kept window c r m k

  -- If every client's window in every room is well formed (the count within the window, a client
  -- paused only when its window is full), then sending to all members of a room leaves every window
  -- well formed and the size of the windows as it was.
  pub send_all-AllFlow :
      (window : ℕ) (is_open : W → Bool) (r : Key) (exclude : Option Key) (wire : Key)
      (members : Map W) (m : Manager W P)
      → AllFlow window m × (m.config.ack_window_size ≡ some window)
      → AllFlow window (send_all is_open r exclude wire members m).0
        × ((send_all is_open r exclude wire members m).0.config.ack_window_size ≡ some window)
  unfolding send_all
  send_all-AllFlow window is_open r exclude wire [] m k = k
  send_all-AllFlow window is_open r exclude wire ((c, ws) ∷ members) m k =
      send_all-AllFlow window is_open r exclude wire members _ (skip-Kept window c r m _ k)
