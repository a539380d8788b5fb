-- ===== src/MultiRegion/OrSet/View.antt =====
-- The abstract set: replicas with the same facts are one. On it merging is a semilattice.
use mathlib.Core.HLevel.{Π_set, Π_prop}
use mathlib.Core.Path.{fun_ext}
use mathlib.Core.Bool.{Bool-set}
use mathlib.Core.Quot
use mathlib.Core.Quot.{Quot, Quot-set}
use real_time_spatial_tracki.Base.{◌≡◌, Bool, Key, arith}
use real_time_spatial_tracki.Base.Map.{Distinct}
use real_time_spatial_tracki.MultiRegion.OrSet.{OrSet, has, merge}
use real_time_spatial_tracki.MultiRegion.OrSet.Merge.{tagged, retired, merge_facts, merge-Distinct}
use real_time_spatial_tracki.MultiRegion.OrSet.Converge.{
  Same, has-Same, merge_comm, merge_assoc, merge_idem,
}

pub record Replica : Type 0 where
  pub state : OrSet
  pub distinct : Distinct state.adds

abbrev pub SameFacts : Replica → Replica → Type 0
SameFacts a b = Same a.state b.state

abbrev pub View : Type 0
View = Quot SameFacts

abbrev pub view : Replica → View
view r = Quot.mk r

abbrev pub merge_replicas : Replica → Replica → Replica
merge_replicas a b = record {
  state = merge a.state b.state;
  distinct = merge-Distinct a.state b.state a.distinct;
}

-- A merge gives the same facts on replicas with the same facts.
Same-merge :
    (a b c d : Replica)
    → SameFacts a c
    → SameFacts b d
    → SameFacts (merge_replicas a b) (merge_replicas c d)
Same-merge a b c d h k e t = (
  ground (
    arith,
    merge_facts e t a.state b.state b.distinct,
    merge_facts e t c.state d.state d.distinct,
    h e t,
    k e t,
  ),
  ground (
    arith,
    merge_facts e t a.state b.state b.distinct,
    merge_facts e t c.state d.state d.distinct,
    h e t,
    k e t,
  ),
)

Same-refl : (a : Replica) → SameFacts a a
Same-refl a e t = (λ i. tagged e t a.state, λ i. retired t a.state)

pub join : View → View → View
join =
    Quot.lift (Π_set (λ v. Quot-set))
      (λ a.
        Quot.lift Quot-set (λ b. view (merge_replicas a b))
          (λ b d k. Quot.sound (Same-merge a b a d (Same-refl a) k)))
      (λ a c h.
        fun_ext
          (Quot.ind (λ v. Quot-set _ _) (λ b. Quot.sound (Same-merge a b c b h (Same-refl b)))))

pub present : Key → View → Bool
present e = Quot.lift Bool-set (λ a. has e a.state) (λ a b h. has-Same e a.state b.state h)

join_comm : (u v : View) → join u v ≡ join v u
unfolding join
join_comm =
    Quot.ind (λ u. Π_prop (λ v. Quot-set _ _))
      (λ a.
        Quot.ind (λ v. Quot-set _ _)
          (λ b. Quot.sound (merge_comm a.state b.state a.distinct b.distinct)))

join_assoc : (u v w : View) → join (join u v) w ≡ join u (join v w)
unfolding join
join_assoc =
    Quot.ind (λ u. Π_prop (λ v. Π_prop (λ w. Quot-set _ _)))
      (λ a.
        Quot.ind (λ v. Π_prop (λ w. Quot-set _ _))
          (λ b.
            Quot.ind (λ w. Quot-set _ _)
              (λ c. Quot.sound (merge_assoc a.state b.state c.state b.distinct c.distinct))))

join_idem : (u : View) → join u u ≡ u
unfolding join
join_idem = Quot.ind (λ u. Quot-set _ _) (λ a. Quot.sound (merge_idem a.state a.distinct))

-- On the views of replicas, which forget the order and the representation of the facts, the merge is
-- commutative, associative and idempotent: a semilattice.
pub join_semilattice :
    (u v w : View)
    → (join u v ≡ join v u) × (join (join u v) w ≡ join u (join v w)) × (join u u ≡ u)
join_semilattice u v w = (join_comm u v, join_assoc u v w, join_idem u)

-- The elements present are read off the view, and those of a joined view are those of the merge.
pub present-join :
    (e : Key) (a b : Replica)
    → (present e (view a) ≡ has e a.state)
      × (present e (join (view a) (view b)) ≡ has e (merge a.state b.state))
unfolding present join
present-join e a b = (λ i. has e a.state, λ i. has e (merge a.state b.state))
