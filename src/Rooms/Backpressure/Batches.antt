-- ===== src/Rooms/Backpressure/Batches.antt =====
-- The batches of a broadcast under backpressure, against one loop over all members.
use real_time_spatial_tracki.Base.{
  ℕ, zero, suc, ◌-◌, ◌<◌, ◌≡◌, refl, sym, ap, ◌∙◌, Bool, List, [], ◌∷◌, ◌++◌, Option, none, some,
  Key, arith, length, ◌⊎◌, inl, inr,
}
use mathlib.Core.List.{append_assoc, append-nil}
use real_time_spatial_tracki.Base.Map.{Map}
use real_time_spatial_tracki.Rooms.{Manager}
use real_time_spatial_tracki.Rooms.Delivery.{Platform, Message}
use real_time_spatial_tracki.Rooms.Backpressure.{visit, visit_batch, drain, run_batches}

nil_or_shorter {ℓ} :
    {A : Type ℓ} (xs : List A) (whole batch turns : ℕ)
    → length xs ≡ whole - batch
    → 0 < batch
    → whole < suc turns
    → (xs ≡ []) ⊎ (length xs < turns)
nil_or_shorter [] whole batch turns e pos h = inl refl
nil_or_shorter (x ∷ xs) whole batch turns e pos h = inr (omega (arith, e, pos, h))

module _ {W P : Type 0} (js : Platform P) (is_open : W → Bool) (buffered : W → ℕ) (now : ℕ)
    (r : Key) (message : Message P) (exclude : Option Key) where
  -- One loop over all the members.
  unfoldable pub visit_all : Map W → Manager W P → Manager W P × List (W × Key)
  visit_all [] m = (m, [])
  visit_all ((c, ws) ∷ entries) m =
      let here = visit js is_open buffered now r message exclude c ws m in
      let (last, sent) = visit_all entries here.0 in (last, here.1 ++ sent)

  -- What one loop over the members that are left adds to what a batch did.
  abbrev after_batch : (Manager W P × List (W × Key)) × Map W → Manager W P × List (W × Key)
  after_batch ((m, sent), left) = ((visit_all left m).0, sent ++ (visit_all left m).1)

  visit_all-batch :
      (n : ℕ) (entries : Map W) (m : Manager W P)
      → visit_all entries m
        ≡ after_batch (visit_batch js is_open buffered now r message exclude n entries m)
  unfolding visit_all visit_batch
  visit_all-batch zero entries m = refl
  visit_all-batch (suc n) [] m = refl
  visit_all-batch (suc n) ((c, ws) ∷ entries) m =
      let here = visit js is_open buffered now r message exclude c ws m in
      let after =
        after_batch (visit_batch js is_open buffered now r message exclude n entries here.0) in
      ap (λ p. (p.0, here.1 ++ p.1)) (visit_all-batch n entries here.0)
      ∙ ap (λ s. (after.0, s)) (sym (append_assoc here.1 _ _))

  length-left :
      (n : ℕ) (entries : Map W) (m : Manager W P)
      → length (visit_batch js is_open buffered now r message exclude n entries m).1
        ≡ length entries - n
  unfolding visit_batch
  length-left zero entries m = omega arith
  length-left (suc n) [] m = omega arith
  length-left (suc n) ((c, ws) ∷ entries) m =
      omega
        (arith, length-left n entries (visit js is_open buffered now r message exclude c ws m).0)

  -- One loop over the members, then the draining of the room.
  unfoldable pub send_and_drain : Map W → Map W → Manager W P → Manager W P × List (W × Key)
  unfolding visit_all drain
  send_and_drain room entries m =
      let (n, sent) = visit_all entries m in
      let (last, drained) = drain js is_open buffered room n in (last, sent ++ drained)

  -- One turn, after which `left` are left, if the turns that follow do what is left.
  turn-left :
      (room left : Map W) (m : Manager W P) (sent : List (W × Key))
      (rest : Option (Manager W P × List (W × Key)))
      → (left ≡ []) ⊎ (rest ≡ some (send_and_drain room left m))
      → (elim left as (λ _. Option (Manager W P × List (W × Key))) [
        | [] ↦
            some
              ((drain js is_open buffered room m).0, sent ++ (drain js is_open buffered room m).1)
        | e ∷ es ↦ elim rest [ none ↦ none | some p ↦ some (p.0, sent ++ p.1) ]
      ])
        ≡ some (
          (drain js is_open buffered room (visit_all left m).0).0,
          (sent ++ (visit_all left m).1) ++ (drain js is_open buffered room (visit_all left m).0).1,
        )
  unfolding send_and_drain visit_all
  turn-left room [] m sent rest h = rw (append-nil sent) refl
  turn-left room (e ∷ es) m sent rest (inl h) = absurd (ground (arith, h))
  turn-left room (e ∷ es) m sent rest (inr h) = rw h (
      let all = visit_all (e ∷ es) m in
      let end = drain js is_open buffered room all.0 in
      ap (λ s. some (end.0, s)) (sym (append_assoc sent all.1 end.1)))

  -- If a batch has room for a member and there are more turns than members, then the batches, run with
  -- nothing between them, come to an end, and give the manager and the messages of one loop over all
  -- members that is followed by the draining of the room.
  pub run_batches_lem :
      (turns batch_size : ℕ) (room entries : Map W) (m : Manager W P)
      → 0 < batch_size
      → length entries < turns
      → run_batches js is_open buffered turns batch_size now r message exclude room entries m
        ≡ some (send_and_drain room entries m)
  unfolding run_batches send_and_drain
  run_batches_lem zero batch_size room entries m pos h = absurd (omega (arith, h))
  run_batches_lem (suc turns) batch_size room entries m pos h =
      let done = visit_batch js is_open buffered now r message exclude batch_size entries m in
      let few : length done.1 ≡ length entries - batch_size = length-left batch_size entries m in
      turn-left room done.1 done.0.0 done.0.1 _
        (elim (nil_or_shorter done.1 (length entries) batch_size turns few pos h) [
          | inl none_left ↦ inl none_left
          | inr shorter ↦ inr (run_batches_lem turns batch_size room done.1 done.0.0 pos shorter)
        ])
      ∙ ap
          (λ p.
            some (
              (drain js is_open buffered room p.0).0,
              p.1 ++ (drain js is_open buffered room p.0).1,
            ))
          (sym (visit_all-batch batch_size entries m))
