-- ===== src/MultiRegion/Rga/Traversal/Total.antt =====
-- The traversal ends: every node is visited once at most.
use real_time_spatial_tracki.Base.{
  ℕ, zero, suc, ◌+◌, ◌≤◌, ◌≡◌, refl, sym, ap, ◌∙◌, subst, Bool, true, false, ◌||◌, List, [], ◌∷◌,
  ◌++◌, some, Key, key_dec, key_ite_self, length, arith, filter, Bool-cases, inl, inr, is_some,
  length-append, if_pos, if_neg,
}
use real_time_spatial_tracki.Base.Map
use real_time_spatial_tracki.Base.Map.{Map, Distinct}
use real_time_spatial_tracki.Base.KeySet
use real_time_spatial_tracki.MultiRegion.Rga.{Node}
use real_time_spatial_tracki.MultiRegion.Rga.Traversal.{
  head_key, bucket_key, bucket, group, children_of, walk, traverse,
}
use real_time_spatial_tracki.MultiRegion.Rga.Traversal.Nodes.{
  length-Unique, length-map, mem_append, Unique-append, ids, mem-sort, sort-Unique, values,
  is_child, bucket-group, mem-filter, filter-Unique, find, find-some, find_selected, ids-append,
}

module _ {V : Type 0} where
  module _ (nodes : Map (Node V)) (u : KeySet.Unique (ids (values nodes)))
      (plain : KeySet.mem head_key (ids (values nodes)) ≡ false) where
    abbrev all : List (Node V)
    all = values nodes

    bucket_lem : (k : Key) → bucket k (group nodes []) ≡ filter (is_child k) all
    bucket_lem k = bucket-group k nodes [] ∙ (unfold Map.get in refl)

    mem-children_of :
        (j k : Key)
        → KeySet.mem j (ids (children_of nodes k)) ≡ KeySet.mem j (ids (filter (is_child k) all))
    unfolding children_of
    mem-children_of j k =
        mem-sort j (bucket k (group nodes [])) ∙ ap (λ xs. KeySet.mem j (ids xs)) (bucket_lem k)

    children_of-Unique : (k : Key) → KeySet.Unique (ids (children_of nodes k))
    unfolding children_of
    children_of-Unique k = sort-Unique (bucket k (group nodes [])) (
        subst (λ xs. KeySet.Unique (ids xs)) (sym (bucket_lem k))
          (filter-Unique (is_child k) all u))

    child_known :
        (j k : Key)
        → KeySet.mem j (ids (children_of nodes k)) ≡ true
        → KeySet.mem j (ids all) ≡ true
    child_known j k m = mem-filter (is_child k) j all (sym (mem-children_of j k) ∙ m)

    -- The one node of a child's id has the parent.
    child_parent :
        (j k : Key) (x : Node V)
        → KeySet.mem j (ids (children_of nodes k)) ≡ true
        → find j all ≡ some x
        → bucket_key x ≡ k
    child_parent j k x m e =
        let c = find_selected (is_child k) j x all u (sym (mem-children_of j k) ∙ m) e in
        elim (key_dec (bucket_key x) k) [ yes p ↦ p | no p ↦ absurd (ground (arith, c, p)) ]

    abbrev is_open : List (Node V) → List Key → Key → Bool
    is_open stack visited k = KeySet.mem k (ids stack) || KeySet.mem k visited

    -- What the loop keeps: no node stands twice on the stack or was visited before, all are nodes of the
    -- array, and the predecessor of each has been visited.
    record IsOpen (stack : List (Node V)) (visited : List Key) : Type 0 where
      pub distinct : KeySet.Unique (ids stack)
      pub once : KeySet.Unique visited
      pub apart : (k : Key) → KeySet.mem k (ids stack) ≡ true → KeySet.mem k visited ≡ false
      pub known : (k : Key) → is_open stack visited k ≡ true → KeySet.mem k (ids all) ≡ true
      pub parents :
          (k : Key) (x : Node V)
          → is_open stack visited k ≡ true
          → find k all ≡ some x
          → KeySet.mem (bucket_key x) (head_key ∷ visited) ≡ true

    start-IsOpen : IsOpen (children_of nodes head_key) []
    unfolding KeySet.mem
    start-IsOpen = record {
      distinct = children_of-Unique head_key;
      once = tt;
      apart = λ k m. refl;
      known = λ k m. child_known k head_key (ground (arith, m));
      parents = λ k x m e.
          let p = child_parent k head_key x (ground (arith, m)) e in
          if_pos (key_dec head_key (bucket_key x)) (sym p) true false;
    }

    module _ (n : Node V) (stack : List (Node V)) (visited : List Key)
        (o : IsOpen (n ∷ stack) visited) where
      abbrev pushed : List Key
      pushed = ids (children_of nodes n.id)

      top_open : is_open (n ∷ stack) visited n.id ≡ true
      unfolding KeySet.mem
      top_open = rw (key_ite_self true (KeySet.mem n.id (ids stack)) n.id) refl

      top_new : KeySet.mem n.id visited ≡ false
      unfolding KeySet.mem
      top_new = o.apart n.id (key_ite_self true (KeySet.mem n.id (ids stack)) n.id)

      no_parent : KeySet.mem n.id (head_key ∷ visited) ≡ true → ⊥
      unfolding KeySet.mem
      no_parent here = elim (key_dec head_key n.id) [
        | yes p ↦ ground (
          arith,
          plain,
          subst (λ j. KeySet.mem j (ids all) ≡ true) (sym p) (o.known n.id top_open),
        )
        | no p ↦ ground (arith, here, p, top_new)
      ]

      -- A child is neither on the stack nor visited.
      child_new : (k : Key) → KeySet.mem k pushed ≡ true → is_open (n ∷ stack) visited k ≡ false
      child_new k m = elim (Bool-cases (is_open (n ∷ stack) visited k)) [
        | inr h ↦ h
        | inl h ↦
            let (y, e) = find-some k all (child_known k n.id m) in
            let here : KeySet.mem n.id (head_key ∷ visited) ≡ true =
              subst (λ j. KeySet.mem j (head_key ∷ visited) ≡ true) (child_parent k n.id y m e)
                (o.parents k y h e) in
            absurd (no_parent here)
      ]

      pushed_open :
          (k : Key)
          → is_open (children_of nodes n.id ++ stack) (n.id ∷ visited) k
            ≡ (KeySet.mem k pushed || is_open (n ∷ stack) visited k)
      unfolding KeySet.mem
      pushed_open k =
          ap (λ ks. KeySet.mem k ks || KeySet.mem k (n.id ∷ visited))
            (ids-append (children_of nodes n.id) stack)
          ∙ ap (λ b. b || KeySet.mem k (n.id ∷ visited)) (mem_append k pushed (ids stack))
          ∙ ground arith

      pushed_apart :
          (k : Key)
          → KeySet.mem k (ids (children_of nodes n.id ++ stack)) ≡ true
          → KeySet.mem k (n.id ∷ visited) ≡ false
      unfolding KeySet.mem
      pushed_apart k m =
          let either : (KeySet.mem k pushed || KeySet.mem k (ids stack)) ≡ true =
            sym (mem_append k pushed (ids stack))
            ∙ ap (KeySet.mem k) (sym (ids-append (children_of nodes n.id) stack))
            ∙ m in
          elim (Bool-cases (KeySet.mem k pushed)) [
            | inl c ↦ ground (arith, child_new k c)
            | inr c ↦
                let below : KeySet.mem k (ids stack) ≡ true = ground (arith, c, either) in
                elim (key_dec n.id k) [
                  | yes p ↦ absurd (
                      ground (
                        arith,
                        below,
                        subst (λ j. KeySet.mem j (ids stack) ≡ false) p o.distinct.0,
                      ))
                  | no p ↦
                      if_neg (key_dec n.id k) p true (KeySet.mem k visited)
                      ∙ o.apart k
                          (if_neg (key_dec n.id k) p true (KeySet.mem k (ids stack)) ∙ below)
                ]
          ]

      step-IsOpen : IsOpen (children_of nodes n.id ++ stack) (n.id ∷ visited)
      unfolding KeySet.mem
      step-IsOpen = record {
        distinct = subst KeySet.Unique (sym (ids-append (children_of nodes n.id) stack)) (
            Unique-append pushed (ids stack) (children_of-Unique n.id) o.distinct.1
              (λ k m. ground (arith, child_new k m)));
        once = (top_new, o.once);
        apart = λ k m. pushed_apart k m;
        known = λ k m. elim (Bool-cases (KeySet.mem k pushed)) [
          | inl c ↦ child_known k n.id c
          | inr c ↦ o.known k (ground (arith, c, sym (pushed_open k) ∙ m))
        ];
        parents = λ k x m e. elim (Bool-cases (KeySet.mem k pushed)) [
          | inl c ↦ ground (arith, sym (child_parent k n.id x c e))
          | inr c ↦ ground (arith, o.parents k x (ground (arith, c, sym (pushed_open k) ∙ m)) e)
        ];
      }

    length_open :
        (stack : List (Node V)) (visited : List Key)
        → IsOpen stack visited
        → length stack + length visited ≤ length nodes
    length_open stack visited o =
        let fits =
          length-Unique (ids stack ++ visited) (ids all)
            (Unique-append (ids stack) visited o.distinct o.once o.apart) u
            (λ k m. o.known k (sym (mem_append k (ids stack) visited) ∙ m)) in
        omega (
          arith,
          fits,
          length-append (ids stack) visited,
          length-map (λ x. x.id) stack,
          length-map (λ x. x.id) all,
          length-map (λ e. e.1) nodes,
        )

    walk_returns :
        (m : ℕ) (stack : List (Node V)) (visited : List Key)
        → IsOpen stack visited
        → length nodes ≤ m + length visited
        → is_some (walk m (children_of nodes) stack) ≡ true
    unfolding walk
    walk_returns m [] visited o h = refl
    walk_returns zero (n ∷ stack) visited o h =
        absurd (omega (arith, h, length_open (n ∷ stack) visited o))
    walk_returns (suc m) (n ∷ stack) visited o h = ground (
      arith,
      walk_returns m (children_of nodes n.id ++ stack) (n.id ∷ visited)
          (step-IsOpen n stack visited o) (omega (arith, h)),
    )

    -- The traversal ends, after no more turns of its loop than there are nodes, if no two nodes have one id
    -- and none has the id that stands for the head of the list.
    pub traverse_returns : is_some (traverse nodes) ≡ true
    unfolding traverse
    traverse_returns =
        walk_returns (length nodes) (children_of nodes head_key) [] start-IsOpen (omega arith)
