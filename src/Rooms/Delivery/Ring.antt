-- ===== src/Rooms/Delivery/Ring.antt =====
-- The ring buffer of a room: its sequence numbers, its length and its size.
use real_time_spatial_tracki.Base.{
  ℕ, ◌+◌, ◌-◌, ◌≤◌, ◌≡◌, refl, subst, inl, inr, ◌||◌, List, [], ◌∷◌, ◌++◌, Key, arith, ltb, length,
  Bool-cases, key_dec, if_neg,
}
use real_time_spatial_tracki.Base.Map
use real_time_spatial_tracki.Base.Map.{Map}
use real_time_spatial_tracki.Rooms.{Entry, Manager}
use real_time_spatial_tracki.Rooms.Delivery.{
  Platform, Message, entry_bytes, trim, store, seq_of, buffer_of, bytes_of, payload_of,
}

-- The entries are numbered from `lo + 1` to `hi`, without a gap.
abbrev pub Runs : {P : Type 0} → ℕ → List (Entry P) → ℕ → Type 0
Runs lo [] hi = lo ≡ hi
Runs lo (e ∷ es) hi = (e.seq ≡ lo + 1) × Runs (lo + 1) es hi

abbrev pub size_of : {P : Type 0} → Platform P → List (Entry P) → ℕ
size_of js [] = 0
size_of js (e ∷ es) = entry_bytes js e + size_of js es

module _ {P : Type 0} (js : Platform P) where
  Runs-append :
      (lo hi : ℕ) (es : List (Entry P)) (e : Entry P)
      → Runs lo es hi
      → e.seq ≡ hi + 1
      → Runs lo (es ++ e ∷ []) (hi + 1)
  Runs-append lo hi [] e h k = (omega arith, omega arith)
  Runs-append lo hi (x ∷ es) e h k = (h.0, Runs-append (lo + 1) hi es e h.1 k)

  size_of-append :
      (es : List (Entry P)) (e : Entry P)
      → size_of js (es ++ e ∷ []) ≡ size_of js es + entry_bytes js e
  size_of-append [] e = omega arith
  size_of-append (x ∷ es) e = omega (arith, size_of-append es e)

  -- What the eviction loop leaves: a run up to the same number, within both limits, with its size.
  pub trim_facts :
      (size max_bytes lo hi : ℕ) (es : List (Entry P)) (bytes : ℕ)
      → bytes ≡ size_of js es
      → Runs lo es hi
      → let kept = trim js size max_bytes es bytes in
        ((from : ℕ) × Runs from kept.0 hi × (lo ≤ from))
        × (length kept.0 ≤ size)
        × (kept.1 ≤ max_bytes)
        × (kept.1 ≡ size_of js kept.0)
  unfolding trim
  trim_facts size max_bytes lo hi [] bytes b h = ((lo, h, omega arith), omega arith, omega arith, b)
  trim_facts size max_bytes lo hi (e ∷ es) bytes b h =
      elim (Bool-cases (ltb size (length (e ∷ es)) || ltb max_bytes bytes)) [
        | inl over ↦
            let (kept, short, small, exact) =
              trim_facts size max_bytes (lo + 1) hi es (bytes - entry_bytes js e) (omega arith)
                h.1 in
            rw over ((kept.0, kept.1, omega (arith, kept.2)), short, small, exact)
        | inr fits ↦ rw fits ((lo, h, omega arith), ground arith, ground arith, b)
      ]

  module _ {W : Type 0} where
    -- A room's buffer ends at the room's number and has no gap, respects both limits, and its size is
    -- known.
    pub record IsRing (r : Key) (m : Manager W P) : Type 0 where
      pub run : (lo : ℕ) × Runs lo (buffer_of r m) (seq_of r m)
      pub short : length (buffer_of r m) ≤ m.config.ring_buffer_size
      pub small : bytes_of r m ≤ m.config.max_buffer_bytes
      pub exact : bytes_of r m ≡ size_of js (buffer_of r m)

    store_other :
        (now : ℕ) (uuid r s : Key) (message : Message P) (m : Manager W P)
        → (r ≡ s → ⊥)
        → (seq_of s (store js now uuid r message m) ≡ seq_of s m)
          × (buffer_of s (store js now uuid r message m) ≡ buffer_of s m)
          × (bytes_of s (store js now uuid r message m) ≡ bytes_of s m)
    unfolding store
    store_other now uuid r s message m ne = (
      rw (Map.get-set s r _ m.room_seq, if_neg (key_dec r s) ne _ _) refl,
      rw (Map.get-set s r _ m.room_buffers, if_neg (key_dec r s) ne _ _) refl,
      rw (Map.get-set s r _ m.room_buffer_bytes, if_neg (key_dec r s) ne _ _) refl,
    )

    abbrev pub new_entry : ℕ → Key → Key → Message P → Manager W P → Entry P
    new_entry now uuid r message m = record {
      seq = seq_of r m + 1;
      message_id = uuid;
      payload = payload_of js message;
      timestamp = now;
    }

    abbrev pub kept_after : ℕ → Key → Key → Message P → Manager W P → List (Entry P) × ℕ
    kept_after now uuid r message m =
        trim js m.config.ring_buffer_size m.config.max_buffer_bytes
          (buffer_of r m ++ new_entry now uuid r message m ∷ [])
          (bytes_of r m + entry_bytes js (new_entry now uuid r message m))

    store_self :
        (now : ℕ) (uuid r : Key) (message : Message P) (m : Manager W P)
        → (seq_of r (store js now uuid r message m) ≡ seq_of r m + 1)
          × (buffer_of r (store js now uuid r message m) ≡ (kept_after now uuid r message m).0)
          × (bytes_of r (store js now uuid r message m) ≡ (kept_after now uuid r message m).1)
    unfolding store
    store_self now uuid r message m = (
      rw (Map.get-set_self r (seq_of r m + 1) m.room_seq) refl,
      rw (Map.get-set_self r (kept_after now uuid r message m).0 m.room_buffers) refl,
      rw (Map.get-set_self r (kept_after now uuid r message m).1 m.room_buffer_bytes) refl,
    )

    store-config :
        (now : ℕ) (uuid r : Key) (message : Message P) (m : Manager W P)
        → (store js now uuid r message m).config ≡ m.config
    unfolding store
    store-config now uuid r message m = refl

    store_kept :
        (now : ℕ) (uuid r : Key) (message : Message P) (m : Manager W P)
        → IsRing r m
        → IsRing r (store js now uuid r message m)
    store_kept now uuid r message m v =
        let self = store_self now uuid r message m in
        let e = new_entry now uuid r message m in
        let (run, short, small, exact) =
          trim_facts m.config.ring_buffer_size m.config.max_buffer_bytes v.run.0 (seq_of r m + 1)
            (buffer_of r m ++ e ∷ []) (bytes_of r m + entry_bytes js e)
            (omega (arith, v.exact, size_of-append (buffer_of r m) e))
            (Runs-append v.run.0 (seq_of r m) (buffer_of r m) e v.run.1 refl) in
        record {
          run = (run.0, rw (self.0, self.1) run.1);
          short = rw (self.1, store-config now uuid r message m) short;
          small = rw (self.2, store-config now uuid r message m) small;
          exact = rw (self.1, self.2) exact;
        }

    -- If the rings of the message's room and of a second room are well formed (no gap up to the
    -- room's number, both limits respected, the byte count exact), then storing a message leaves
    -- the ring of the second room well formed, whether it is the same room or another.
    pub store-IsRing :
        (now : ℕ) (uuid r s : Key) (message : Message P) (m : Manager W P)
        → IsRing r m
        → IsRing s m
        → IsRing s (store js now uuid r message m)
    store-IsRing now uuid r s message m vr vs = elim (key_dec r s) [
      | yes p ↦
          subst (λ k. IsRing k (store js now uuid r message m)) p
            (store_kept now uuid r message m vr)
      | no p ↦
          let other = store_other now uuid r s message m p in
          let same = store-config now uuid r message m in
          record {
            run = (vs.run.0, rw (other.0, other.1) vs.run.1);
            short = rw (other.1, same) vs.short;
            small = rw (other.2, same) vs.small;
            exact = rw (other.1, other.2) vs.exact;
          }
    ]
