-- ===== src/MultiRegion/Rga/Traversal/Nodes.antt =====
-- Nodes by their ids: distinct ones, selected ones, and the sorted buckets.
use real_time_spatial_tracki.Base.{
  ◌≤◌, ◌≡◌, refl, sym, ap, ◌∙◌, subst, Bool, true, false, ◌||◌, List, [], ◌∷◌, ◌++◌, map, Option,
  none, some, Key, key_dec, key_ite_self, ite, or_default, length, arith, filter, All, Bool-cases,
  inl, inr, if_pos, if_neg,
}
use mathlib.Core.List.{append_assoc, append-nil}
use real_time_spatial_tracki.Base.Map
use real_time_spatial_tracki.Base.Map.{Map, Distinct}
use real_time_spatial_tracki.Base.KeySet
use real_time_spatial_tracki.Base.Order.{is_more}
use real_time_spatial_tracki.MultiRegion.Rga.{Node, compare_message_ids}
use real_time_spatial_tracki.MultiRegion.Rga.Traversal.{
  bucket_key, bucket, group, insert_by_id, sort_by_id,
}
use real_time_spatial_tracki.MultiRegion.Coordinator.Quorum.Majority.{length-delete}

-- A list of distinct keys of another is no longer than it.
pub length-Unique :
    (xs ys : List Key)
    → KeySet.Unique xs
    → KeySet.Unique ys
    → ((k : Key) → KeySet.mem k xs ≡ true → KeySet.mem k ys ≡ true)
    → length xs ≤ length ys
unfolding KeySet.mem
length-Unique [] ys u v sub = omega arith
length-Unique (x ∷ xs) ys u v sub =
    let here : KeySet.mem x ys ≡ true = sub x (key_ite_self true (KeySet.mem x xs) x) in
    let rest = length-Unique xs (KeySet.delete x ys) u.1 (KeySet.delete-Unique x ys v) (λ k m.
      elim (key_dec x k) [
        | yes p ↦ absurd (ground (arith, ap (λ j. KeySet.mem j xs) p, u.0, m))
        | no p ↦
            KeySet.mem-delete k x ys
            ∙ if_neg (key_dec x k) p false (KeySet.mem k ys)
            ∙ sub k (if_neg (key_dec x k) p true (KeySet.mem k xs) ∙ m)
      ]) in
    omega (arith, rest, length-delete x ys v here)

pub length-map {ℓ κ} :
    {A : Type ℓ} {B : Type κ} (f : A → B) (xs : List A) → length (map f xs) ≡ length xs
length-map f [] = omega arith
length-map f (x ∷ xs) = omega (arith, length-map f xs)

pub mem_append :
    (k : Key) (xs ys : List Key) → KeySet.mem k (xs ++ ys) ≡ (KeySet.mem k xs || KeySet.mem k ys)
unfolding KeySet.mem
mem_append k [] ys = ground arith
mem_append k (x ∷ xs) ys = ground (arith, mem_append k xs ys)

pub Unique-append :
    (xs ys : List Key)
    → KeySet.Unique xs
    → KeySet.Unique ys
    → ((k : Key) → KeySet.mem k xs ≡ true → KeySet.mem k ys ≡ false)
    → KeySet.Unique (xs ++ ys)
unfolding KeySet.mem
Unique-append [] ys u v apart = v
Unique-append (x ∷ xs) ys u v apart = (
  mem_append x xs ys ∙ ground (arith, u.0, apart x (key_ite_self true (KeySet.mem x xs) x)),
  Unique-append xs ys u.1 v (λ k m. apart k (elim (key_dec x k) [
    | yes p ↦ if_pos (key_dec x k) p true (KeySet.mem k xs)
    | no p ↦ if_neg (key_dec x k) p true (KeySet.mem k xs) ∙ m
  ])),
)

absent :
    (j k : Key) (xs : List Key)
    → KeySet.mem k (j ∷ xs) ≡ false
    → KeySet.mem j xs ≡ false
    → KeySet.mem j (k ∷ xs) ≡ false
unfolding KeySet.mem
absent j k xs h g = elim (key_dec k j) [
  | yes p ↦ absurd (ground (arith, h, sym p))
  | no p ↦ ground (arith, p, g)
]

module _ {V : Type 0} where
  abbrev pub ids : List (Node V) → List Key
  ids xs = map (λ x. x.id) xs

  mem-append :
      (k : Key) (xs ys : List (Node V))
      → KeySet.mem k (ids (xs ++ ys)) ≡ (KeySet.mem k (ids xs) || KeySet.mem k (ids ys))
  unfolding KeySet.mem
  mem-append k [] ys = ground arith
  mem-append k (x ∷ xs) ys = ground (arith, mem-append k xs ys)

  mem-insert :
      (k : Key) (x : Node V) (xs : List (Node V))
      → KeySet.mem k (ids (insert_by_id x xs)) ≡ KeySet.mem k (ids (x ∷ xs))
  unfolding insert_by_id KeySet.mem
  mem-insert k x [] = refl
  mem-insert k x (y ∷ ys) = elim (Bool-cases (is_more (compare_message_ids x.id y.id))) [
    | inl h ↦ rw h (ground (arith, mem-insert k x ys))
    | inr h ↦ rw h refl
  ]

  pub mem-sort :
      (k : Key) (xs : List (Node V)) → KeySet.mem k (ids (sort_by_id xs)) ≡ KeySet.mem k (ids xs)
  unfolding sort_by_id KeySet.mem
  mem-sort k [] = refl
  mem-sort k (x ∷ xs) = mem-insert k x (sort_by_id xs) ∙ ground (arith, mem-sort k xs)

  insert-Unique :
      (x : Node V) (xs : List (Node V))
      → KeySet.mem x.id (ids xs) ≡ false
      → KeySet.Unique (ids xs)
      → KeySet.Unique (ids (insert_by_id x xs))
  unfolding insert_by_id KeySet.mem
  insert-Unique x [] h u = (refl, tt)
  insert-Unique x (y ∷ ys) h u = elim (Bool-cases (is_more (compare_message_ids x.id y.id))) [
    | inl g ↦ rw g (
      mem-insert y.id x ys ∙ absent y.id x.id (ids ys) h u.0,
      insert-Unique x ys (ground (arith, h)) u.1,
    )
    | inr g ↦ rw g (h, u)
  ]

  pub sort-Unique :
      (xs : List (Node V)) → KeySet.Unique (ids xs) → KeySet.Unique (ids (sort_by_id xs))
  unfolding sort_by_id
  sort-Unique [] u = tt
  sort-Unique (x ∷ xs) u =
      insert-Unique x (sort_by_id xs) (mem-sort x.id xs ∙ u.0) (sort-Unique xs u.1)

  insert-All :
      (Q : Node V → Type 0) (x : Node V) (xs : List (Node V))
      → Q x
      → All Q xs
      → All Q (insert_by_id x xs)
  unfolding insert_by_id
  insert-All Q x [] q h = (q, tt)
  insert-All Q x (y ∷ ys) q h = elim (Bool-cases (is_more (compare_message_ids x.id y.id))) [
    | inl g ↦ rw g (h.0, insert-All Q x ys q h.1)
    | inr g ↦ rw g (q, h)
  ]

  sort-All : (Q : Node V → Type 0) (xs : List (Node V)) → All Q xs → All Q (sort_by_id xs)
  unfolding sort_by_id
  sort-All Q [] h = tt
  sort-All Q (x ∷ xs) h = insert-All Q x (sort_by_id xs) h.0 (sort-All Q xs h.1)

  abbrev pub values : Map (Node V) → List (Node V)
  values nodes = map (λ e. e.1) nodes

  abbrev pub is_child : Key → Node V → Bool
  is_child k x = ite (key_dec (bucket_key x) k) true false

  pub bucket-group :
      (k : Key) (nodes : Map (Node V)) (children : Map (List (Node V)))
      → bucket k (group nodes children) ≡ bucket k children ++ filter (is_child k) (values nodes)
  unfolding group
  bucket-group k [] children = sym (append-nil (bucket k children))
  bucket-group k ((j, x) ∷ nodes) children =
      let b = bucket_key x in
      bucket-group k nodes (Map.set b (bucket b children ++ x ∷ []) children)
      ∙ ap (λ o. or_default o [] ++ filter (is_child k) (values nodes))
          (Map.get-set k b (bucket b children ++ x ∷ []) children)
      ∙ elim (key_dec b k) [
        | yes p ↦
            rw
              (
                if_pos (key_dec b k) p (some (bucket b children ++ x ∷ [])) (Map.get k children),
                if_pos (key_dec b k) p true false,
              )
              (append_assoc (bucket b children) (x ∷ []) (filter (is_child k) (values nodes))
                ∙ ap (λ i. bucket i children ++ x ∷ filter (is_child k) (values nodes)) p)
        | no p ↦
            rw
              (
                if_neg (key_dec b k) p (some (bucket b children ++ x ∷ [])) (Map.get k children),
                if_neg (key_dec b k) p true false,
              )
              refl
      ]

  pub mem-filter :
      (p : Node V → Bool) (k : Key) (xs : List (Node V))
      → KeySet.mem k (ids (filter p xs)) ≡ true
      → KeySet.mem k (ids xs) ≡ true
  unfolding KeySet.mem
  mem-filter p k [] h = h
  mem-filter p k (x ∷ xs) h = elim (Bool-cases (p x)) [
    | inl e ↦ ground (arith, e, h, mem-filter p k xs)
    | inr e ↦ ground (arith, e, h, mem-filter p k xs)
  ]

  not_mem-filter :
      (p : Node V → Bool) (k : Key) (xs : List (Node V))
      → KeySet.mem k (ids xs) ≡ false
      → KeySet.mem k (ids (filter p xs)) ≡ false
  not_mem-filter p k xs h = elim (Bool-cases (KeySet.mem k (ids (filter p xs)))) [
    | inl e ↦ absurd (ground (arith, h, mem-filter p k xs e))
    | inr e ↦ e
  ]

  pub filter-Unique :
      (p : Node V → Bool) (xs : List (Node V))
      → KeySet.Unique (ids xs)
      → KeySet.Unique (ids (filter p xs))
  filter-Unique p [] u = tt
  filter-Unique p (x ∷ xs) u = elim (Bool-cases (p x)) [
    | inl e ↦ rw e (not_mem-filter p x.id xs u.0, filter-Unique p xs u.1)
    | inr e ↦ rw e (filter-Unique p xs u.1)
  ]

  pub find : Key → List (Node V) → Option (Node V)
  find k [] = none
  find k (x ∷ xs) = ite (key_dec x.id k) (some x) (find k xs)

  pub find-some :
      (k : Key) (xs : List (Node V))
      → KeySet.mem k (ids xs) ≡ true
      → (x : Node V) × (find k xs ≡ some x)
  unfolding find KeySet.mem
  find-some k [] h = absurd (ground (arith, h))
  find-some k (x ∷ xs) h = elim (key_dec x.id k) [
    | yes p ↦ (x, if_pos (key_dec x.id k) p (some x) (find k xs))
    | no p ↦
        let (y, e) = find-some k xs (ground (arith, h, p)) in
        (y, if_neg (key_dec x.id k) p (some x) (find k xs) ∙ e)
  ]

  -- Of nodes with distinct ids, one whose id is among those of the selected ones is selected.
  pub find_selected :
      (p : Node V → Bool) (k : Key) (y : Node V) (xs : List (Node V))
      → KeySet.Unique (ids xs)
      → KeySet.mem k (ids (filter p xs)) ≡ true
      → find k xs ≡ some y
      → p y ≡ true
  unfolding find KeySet.mem
  find_selected p k y [] u m e = absurd (ground (arith, m))
  find_selected p k y (x ∷ xs) u m e = elim (key_dec x.id k) [
    | yes same ↦
        let is_y : x ≡ y =
          ground (arith, sym (if_pos (key_dec x.id k) same (some x) (find k xs)) ∙ e) in
        elim (Bool-cases (p x)) [
          | inl h ↦ subst (λ z. p z ≡ true) is_y h
          | inr h ↦ absurd (
              ground (
                arith,
                rw h at m,
                not_mem-filter p k xs (subst (λ j. KeySet.mem j (ids xs) ≡ false) same u.0),
              ))
        ]
    | no other ↦
        let later = sym (if_neg (key_dec x.id k) other (some x) (find k xs)) ∙ e in
        elim (Bool-cases (p x)) [
          | inl h ↦
              find_selected p k y xs u.1
                (sym (if_neg (key_dec x.id k) other true (KeySet.mem k (ids (filter p xs))))
                  ∙ rw h at m)
                later
          | inr h ↦ find_selected p k y xs u.1 (rw h at m) later
        ]
  ]

  pub ids-append : (xs ys : List (Node V)) → ids (xs ++ ys) ≡ ids xs ++ ids ys
  ids-append [] ys = refl
  ids-append (x ∷ xs) ys = ap (λ ks. x.id ∷ ks) (ids-append xs ys)
