-- ===== src/EventSourcing/Repository/Writing.antt =====
-- The background write of a snapshot.
use real_time_spatial_tracki.Base.{
  ◌+◌, ◌≡◌, sym, subst, List, [], ◌∷◌, some, Key, arith, List-cases, if_pos, if_neg, All, inl, inr,
  key_dec,
}
use real_time_spatial_tracki.Base.Map
use real_time_spatial_tracki.Base.KeySet
use real_time_spatial_tracki.EventSourcing.{Snapshot}
use real_time_spatial_tracki.EventSourcing.Store.{
  EventStore, events_of, get_snapshot, save_snapshot,
}
use real_time_spatial_tracki.EventSourcing.Aggregate.{Class}
use real_time_spatial_tracki.EventSourcing.Repository.{Repository, write_snapshot}
use real_time_spatial_tracki.EventSourcing.Repository.Snapshots.{
  IsTaken, IsConsistent, IsSnapshotOf,
}

module _ {P S : Type 0} where
  write_snapshot_none :
      (repo : Repository S) (store : EventStore P S)
      → repo.scheduled ≡ []
      → write_snapshot repo store ≡ (repo, store)
  unfolding write_snapshot
  write_snapshot_none repo store e = ground (arith, e)

  write_snapshot_next :
      (repo : Repository S) (store : EventStore P S) (snapshot : Snapshot S)
      (more : List (Snapshot S))
      → repo.scheduled ≡ snapshot ∷ more
      → write_snapshot repo store ≡ (
        record repo {
          snapshot_count = repo.snapshot_count + 1;
          pending_snapshots = KeySet.delete snapshot.aggregate_id repo.pending_snapshots;
          scheduled = more;
        },
        save_snapshot snapshot store,
      )
  unfolding write_snapshot
  write_snapshot_next repo store snapshot more e = ground (arith, e)

module _ {P A S : Type 0} (cls : Class P A S) where
  IsTaken-save :
      (j : Key) (store : EventStore P S) (snapshot : Snapshot S)
      → IsTaken cls (events_of j store) (get_snapshot j store)
      → (snapshot.aggregate_id ≡ j → IsSnapshotOf cls (events_of j store) snapshot)
      → IsTaken cls (events_of j store) (get_snapshot j (save_snapshot snapshot store))
  unfolding save_snapshot get_snapshot
  IsTaken-save j store snapshot old new =
      let k = snapshot.aggregate_id in
      rw (Map.get-set j k snapshot store.snapshots) (elim (key_dec k j) [
        | yes p ↦ rw (if_pos (key_dec k j) p (some snapshot) (Map.get j store.snapshots)) (new p)
        | no p ↦ rw (if_neg (key_dec k j) p (some snapshot) (Map.get j store.snapshots)) old
      ])

  -- Writing a snapshot that waited keeps the repository consistent, whatever was committed since it was
  -- taken.
  pub write_snapshot-IsConsistent :
      (D : Key → Type 0) (repo : Repository S) (store : EventStore P S)
      → IsConsistent cls D repo store
      → IsConsistent cls D (write_snapshot repo store).0 (write_snapshot repo store).1
  write_snapshot-IsConsistent D repo store c = elim (List-cases repo.scheduled) [
    | inl e ↦ rw (write_snapshot_none repo store e) c
    | inr (snapshot, more, e) ↦
        let waits : (D snapshot.aggregate_id
              × IsSnapshotOf cls (events_of snapshot.aggregate_id store) snapshot)
            × All (λ s. D s.aggregate_id × IsSnapshotOf cls (events_of s.aggregate_id store) s)
                more =
          subst (All (λ s. D s.aggregate_id × IsSnapshotOf cls (events_of s.aggregate_id store) s))
            e c.waiting in
        rw (write_snapshot_next repo store snapshot more e) (record {
          run = unfold save_snapshot in c.run;
          taken = λ j own.
              unfold save_snapshot in
              IsTaken-save j store snapshot (c.taken j own)
                (λ p. subst (λ i. IsSnapshotOf cls (events_of i store) snapshot) p waits.0.1);
          waiting = unfold save_snapshot in waits.1;
        })
  ]

-- Writing it also keeps a repository of another class consistent, if the two have no id in common.
module _ {P A B S : Type 0} (cls : Class P A S) (other : Class P B S) where
  pub write_snapshot_shares :
      (D O : Key → Type 0) (repo its : Repository S) (store : EventStore P S)
      → ((id : Key) → D id → ¬ O id)
      → IsConsistent cls D repo store
      → IsConsistent other O its store
      → IsConsistent other O its (write_snapshot repo store).1
  write_snapshot_shares D O repo its store apart c k = elim (List-cases repo.scheduled) [
    | inl e ↦ rw (write_snapshot_none repo store e) k
    | inr (snapshot, more, e) ↦
        let waits =
          subst (All (λ s. D s.aggregate_id × IsSnapshotOf cls (events_of s.aggregate_id store) s))
            e c.waiting in
        rw (write_snapshot_next repo store snapshot more e) (record {
          run = unfold save_snapshot in k.run;
          taken = λ j own.
              unfold save_snapshot in
              IsTaken-save other j store snapshot (k.taken j own)
                (λ p. absurd (apart snapshot.aggregate_id waits.0.0 (subst O (sym p) own)));
          waiting = unfold save_snapshot in k.waiting;
        })
  ]
