-- ===== src/MultiRegion/OrSet/Converge.antt =====
-- Replicas of an observed-remove set converge, and a concurrent addition wins over a removal.
use real_time_spatial_tracki.Base.{
  ◌≡◌, refl, sym, ◌∙◌, inl, inr, true, false, List, [], ◌∷◌, arith, or_default, Key, any,
  Bool-cases, bool_ext, ◌↔◌,
}
use real_time_spatial_tracki.Base.Map
use real_time_spatial_tracki.Base.Map.{Map, Distinct}
use real_time_spatial_tracki.Base.KeySet
use real_time_spatial_tracki.MultiRegion.OrSet.{
  OrSet, tags, is_live, add, remove, has, members, members_of, merge,
}
use real_time_spatial_tracki.MultiRegion.OrSet.Merge.{
  tagged, retired, merge_facts, tagged-add, apply_remove-adds, retired-apply_remove, add-Distinct,
  apply_remove-Distinct, merge-Distinct,
}

-- An element is present exactly when a tag backs it that is not retired.
pub has_iff :
    (e : Key) (s : OrSet)
    → (has e s ≡ true) ↔ ((t : Key) × (tagged e t s ≡ true) × (retired t s ≡ false))
unfolding has
has_iff e s = (
  λ h.
      let (t, m, live) = KeySet.any_member (is_live s) (tags e s) h in (t, m, ground (arith, live)),
  λ w. KeySet.any-mem (is_live s) w.0 (tags e s) w.1 (ground (arith, w.2)),
)

-- The same facts on both sides.
abbrev pub Same : OrSet → OrSet → Type 0
Same a b = (e t : Key) → (tagged e t a ≡ tagged e t b) × (retired t a ≡ retired t b)

has_of_Same : (e : Key) (a b : OrSet) → Same a b → has e a ≡ true → has e b ≡ true
has_of_Same e a b same h =
    let (t, m, live) = (has_iff e a).0 h in
    (has_iff e b).1 (t, sym (same e t).0 ∙ m, sym (same e t).1 ∙ live)

-- Sets of the same facts have the same elements.
pub has-Same : (e : Key) (a b : OrSet) → Same a b → has e a ≡ has e b
has-Same e a b same =
    bool_ext (has e a) (has e b) (has_of_Same e a b same)
      (has_of_Same e b a (λ i t. (sym (same i t).0, sym (same i t).1)))

-- Merging in either order gives the same facts, and so the same elements.
pub merge_comm : (a b : OrSet) → Distinct a.adds → Distinct b.adds → Same (merge a b) (merge b a)
merge_comm a b da db e t = (
  ground (arith, merge_facts e t a b db, merge_facts e t b a da),
  ground (arith, merge_facts e t a b db, merge_facts e t b a da),
)

pub merge_assoc :
    (a b c : OrSet)
    → Distinct b.adds
    → Distinct c.adds
    → Same (merge (merge a b) c) (merge a (merge b c))
merge_assoc a b c db dc e t =
    let d : Distinct (merge b c).adds = merge-Distinct b c db in
    (
      ground (
        arith,
        merge_facts e t (merge a b) c dc,
        merge_facts e t a b db,
        merge_facts e t a (merge b c) d,
        merge_facts e t b c dc,
      ),
      ground (
        arith,
        merge_facts e t (merge a b) c dc,
        merge_facts e t a b db,
        merge_facts e t a (merge b c) d,
        merge_facts e t b c dc,
      ),
    )

pub merge_idem : (a : OrSet) → Distinct a.adds → Same (merge a a) a
merge_idem a d e t = (ground (arith, merge_facts e t a a d), ground (arith, merge_facts e t a a d))

-- If, of two replicas that hold no element twice, one removes an element while the other adds it
-- under a tag that neither has retired and that the first does not hold for it, then after the
-- merge, in either direction, the element is present.
pub add_wins :
    (e t : Key) (a b : OrSet)
    → Distinct a.adds
    → Distinct b.adds
    → tagged e t a ≡ false
    → retired t a ≡ false
    → retired t b ≡ false
    → (has e (merge (remove e a).0 (add e t b)) ≡ true)
      × (has e (merge (add e t b) (remove e a).0) ≡ true)
unfolding remove
add_wins e t a b da db unseen live_a live_b =
    let dr : Distinct (remove e a).0.adds = apply_remove-Distinct (tags e a) a da in
    let db' : Distinct (add e t b).adds = add-Distinct e t b db in
    let gone = retired-apply_remove t (tags e a) a in
    let kept : retired t (add e t b) ≡ retired t b = unfold add in refl in
    let here : tagged e t (add e t b) ≡ true = ground (arith, tagged-add e t e t b) in
    (
      (has_iff e _).1 (
        t,
        ground (arith, merge_facts e t (remove e a).0 (add e t b) db', here),
        ground (arith, merge_facts e t (remove e a).0 (add e t b) db', gone, kept),
      ),
      (has_iff e _).1 (
        t,
        ground (arith, merge_facts e t (add e t b) (remove e a).0 dr, here),
        ground (arith, merge_facts e t (add e t b) (remove e a).0 dr, gone, kept),
      ),
    )

-- After a removal the element is gone, and any other element that shares none of its tags is
-- present exactly if it was.
pub has-remove :
    (e j : Key) (s : OrSet)
    → ((t : Key) → tagged e t s ≡ true → tagged j t s ≡ false)
    → (has e (remove e s).0 ≡ false) × (has j (remove e s).0 ≡ has j s)
unfolding remove
has-remove e j s apart = (
  elim (Bool-cases (has e (remove e s).0)) [
    | inl h ↦
        let (t, m, live) = (has_iff e (remove e s).0).0 h in
        absurd (ground (arith, retired-apply_remove t (tags e s) s, apply_remove-adds (tags e s) s))
    | inr h ↦ h
  ],
  bool_ext (has j (remove e s).0) (has j s)
      (λ h.
        let (t, m, live) = (has_iff j (remove e s).0).0 h in
        (has_iff j s).1 (
          t,
          ground (arith, apply_remove-adds (tags e s) s),
          ground (arith, retired-apply_remove t (tags e s) s),
        ))
      (λ h.
        let (t, m, live) = (has_iff j s).0 h in
        (has_iff j (remove e s).0).1 (
          t,
          ground (arith, apply_remove-adds (tags e s) s),
          ground (arith, retired-apply_remove t (tags e s) s, apart t),
        )),
)

-- `members()` lists the elements that are present.
members_of-mem :
    (e : Key) (s : OrSet) (m : Map (List Key))
    → Distinct m
    → KeySet.mem e (members_of s m) ≡ any (is_live s) (or_default (Map.get e m) [])
unfolding members_of Map.get KeySet.mem
members_of-mem e s [] d = refl
members_of-mem e s ((elem, ts) ∷ m) d = ground (arith, members_of-mem e s m d.1, d.0)

-- If the replica holds no element twice, an element is among the members exactly if it is present.
pub mem-members : (e : Key) (s : OrSet) → Distinct s.adds → KeySet.mem e (members s) ≡ has e s
unfolding members has
mem-members e s d = members_of-mem e s s.adds d
