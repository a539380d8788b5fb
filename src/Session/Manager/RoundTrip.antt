-- ===== src/Session/Manager/RoundTrip.antt =====
-- A blob that `save` returned is opened by `load` while its entry in the store is live.
use real_time_spatial_tracki.Base.{
  ℕ, ◌+◌, ◌≡◌, refl, Bool, false, [], ◌∷◌, ◌++◌, none, some, Key, arith, leb, ◌==◌, if◌then◌else◌,
  length, All,
}
use real_time_spatial_tracki.Base.Map
use real_time_spatial_tracki.Session.Store
use real_time_spatial_tracki.Session.Manager.{
  Cipher, Manager, dot, join_fields, split_dots, blob_of, save, open_with, candidates, open_fields,
  open_blob, load, storage_key, delete, iv_bytes, tag_bytes,
}

abbrev pub NoDot : Key → Type 0
NoDot = All (λ x. (x == dot) ≡ false)

-- What the code relies on: decryption undoes encryption under the same key, base64 can be undone and
-- has no dot, and the tag and the ciphertext have their sizes.
pub record IsCipher {K S : Type 0} (cipher : Cipher K S) : Type 0 where
  pub opens :
      (k : K) (iv : Key) (state : S)
      → cipher.decrypt k iv (cipher.encrypt k iv state).0 (cipher.encrypt k iv state).1 ≡ some state
  pub base64 : (bytes : Key) → cipher.from_base64 (cipher.to_base64 bytes) ≡ bytes
  pub plain : (bytes : Key) → NoDot (cipher.to_base64 bytes)
  pub tagged : (k : K) (iv : Key) (state : S) → length (cipher.encrypt k iv state).1 ≡ tag_bytes
  pub filled : (k : K) (iv : Key) (state : S) → (length (cipher.encrypt k iv state).0 == 0) ≡ false

split-last : (a : Key) → NoDot a → split_dots a ≡ (a, [])
unfolding split_dots
split-last [] h = refl
split-last (x ∷ a) h = rw (split-last a h.1, h.0) refl

split-field :
    (a rest : Key)
    → NoDot a
    → split_dots (a ++ (dot ∷ rest)) ≡ (a, (split_dots rest).0 ∷ (split_dots rest).1)
unfolding split_dots
split-field [] rest h = refl
split-field (x ∷ a) rest h = rw (split-field a rest h.1, h.0) refl

-- Splitting a blob gives the fields that were joined.
pub split-join_fields :
    (a b c d : Key)
    → NoDot a
    → NoDot b
    → NoDot c
    → NoDot d
    → split_dots (join_fields a b c d) ≡ (a, b ∷ c ∷ d ∷ [])
unfolding join_fields
split-join_fields a b c d ha hb hc hd =
    rw (split-field a _ ha, split-field b _ hb, split-field c d hc, split-last d hd) refl

module _ {K S : Type 0} (cipher : Cipher K S) (good : IsCipher cipher) where
  -- The sealed state opens under any map in which the blob's key id names the sealing key.
  pub open-blob_of :
      (k : K) (id iv : Key) (state : S) (client : Key) (m : Manager K S)
      → Map.get id m.keys ≡ some k
      → NoDot id
      → length iv ≡ iv_bytes
      → cipher.client_id state ≡ some client
      → open_blob cipher (blob_of cipher k id iv state) m.keys ≡ some state
  unfolding open_blob open_fields blob_of open_with candidates
  open-blob_of k id iv state client m named plain_id long named_client =
      rw
        (split-join_fields id (cipher.to_base64 iv) _ _ plain_id (good.plain iv) (good.plain _)
          (good.plain _))
        (rw
          (
            good.base64 iv,
            good.base64 (cipher.encrypt k iv state).0,
            good.base64 (cipher.encrypt k iv state).1,
          )
          (ground (arith, good.tagged k iv state, good.filled k iv state, good.opens k iv state)))

  -- If the cipher is correct, the manager's key id names its sealing key and has no dot, the
  -- initialisation vector has its size, the state names the client, and `save` returned a blob,
  -- then `load` of the blob gives the saved state while the entry has time to live and nothing from
  -- its expiry on; and once the client's session was deleted it gives nothing.
  pub load-save :
      (now later : ℕ) (iv client : Key) (state : S) (count : Bool) (m : Manager K S) (blob : Key)
      → Map.get m.key_id m.keys ≡ some m.sealing_key
      → NoDot m.key_id
      → length iv ≡ iv_bytes
      → cipher.client_id state ≡ some client
      → (save cipher now iv client state m).1 ≡ some blob
      → ((load cipher later blob count (save cipher now iv client state m).0).1
          ≡ (if leb (now + m.ttl_ms) later then none else some state))
        × ((load cipher later blob count (delete client (save cipher now iv client state m).0).0).1
            ≡ none)
  unfolding load save delete Store.get Store.set Store.del
  load-save now later iv [] state count m blob named plain_id long named_client saved =
      absurd (cc saved)
  load-save now later iv (c ∷ rest) state count m blob named plain_id long named_client saved =
      let client = c ∷ rest in
      let opened =
        open-blob_of m.sealing_key m.key_id iv state client m named plain_id long named_client in
      let sealed = blob_of cipher m.sealing_key m.key_id iv state in
      let k = storage_key client in
      let held : Store.Held = record {
        value = sealed;
        expires_at = now + m.ttl_ms;
        timer = now + m.ttl_ms;
      } in
      (
        ground (arith, opened, Map.get-set_self k held m.store),
        ground (
          arith,
          opened,
          Map.get-set_self k held m.store,
          Map.get-delete_self k (Map.set k held m.store),
        ),
      )
