-- ===== src/MultiRegion/CoordinatorTests.antt =====
-- The theorems of the coordinator at concrete inputs: three regions.
use real_time_spatial_tracki.Base.{
  ℕ, ◌≡◌, refl, true, false, not, ◌&&◌, List, [], ◌∷◌, map, filter, none, some, Key, key, is_some,
  Option, ◌++◌, key_dec, any,
}
use real_time_spatial_tracki.Base.Map
use real_time_spatial_tracki.Base.KeySet
use real_time_spatial_tracki.MultiRegion.Merkle.{merkle_root, climb, next_level, merkle_root_repeat}
use real_time_spatial_tracki.Base.Map.{Map}
use real_time_spatial_tracki.Base.Order.{compare_text}
use real_time_spatial_tracki.MultiRegion.Rga.{Node, compare_message_ids}
use real_time_spatial_tracki.MultiRegion.Rga.Traversal.{
  head_key, traverse, last_visible_id, to_array, last_id, walk, children_of, group, sort_by_id,
  insert_by_id,
}
use real_time_spatial_tracki.MultiRegion.Rga.Traversal.Total.{traverse_returns}
use real_time_spatial_tracki.MultiRegion.OrSet
use real_time_spatial_tracki.MultiRegion.Coordinator.{
  membership_add, membership_remove, global_config, Op, Region, room_of, op_of, replicate,
  can_replicate_to, residency_global,
}
use real_time_spatial_tracki.MultiRegion.Coordinator.Replication.{outbox-replicate}
use real_time_spatial_tracki.MultiRegion.Coordinator.Incoming.{handle_peer_operation}
use real_time_spatial_tracki.MultiRegion.Coordinator.Delivery.{
  handle_peer_operation-join, handle_peer_operation-leave,
}
use real_time_spatial_tracki.MultiRegion.Coordinator.Quorum.{
  Answer, ack, quorum_replicate, quorum_size, send_all,
}
use real_time_spatial_tracki.MultiRegion.Coordinator.Quorum.Majority.{
  IsMember, has_taken, committed_overlap,
}

abbrev us : Key
us = key "us"

abbrev eu : Key
eu = key "eu"

abbrev ap : Key
ap = key "ap"

abbrev all : List Key
all = us ∷ eu ∷ ap ∷ []

-- European data may go to one peer only; the third region is down.
abbrev region : Key → List Key → List Key → Region ℕ
region id peers failed = record {
  region_id = id;
  peer_regions = peers;
  has_transport = true;
  config = record {
    data_residency = (eu, us ∷ eu ∷ []) ∷ [];
    room_residency = [];
    quorum_size = none;
    lag_alert_ms = none;
    self_disabled = false;
  };
  hlc = record { l = 0; c = 0 };
  vector_clock = [];
  rooms = [];
  sessions = [];
  geofences = record { adds = []; removes = [] };
  failed_regions = failed;
  metrics = record {
    replication_lag_ms = [];
    replication_conflicts_total = 0;
    ops_replicated = 0;
    ops_received = 0;
    ops_filtered_residency = 0;
    quorum_writes_total = 0;
    quorum_write_failures_total = 0;
    region_health = [];
  };
  outbox = [];
}

abbrev a : Region ℕ
a = region us (eu ∷ ap ∷ []) []

abbrev b : Region ℕ
b = region eu (us ∷ ap ∷ []) (ap ∷ [])

abbrev ann : Key
ann = key "ann"

abbrev lobby : Key
lobby = key "lobby"

abbrev tag : Key
tag = key "us:1"

outbox-replicate_example :
    (replicate 7 (membership_add lobby ann tag) none (some eu) a).outbox
    ≡ map
        (λ peer. (peer, op_of 7 (membership_add lobby ann tag) none (some eu) a))
        (filter (λ peer. not (KeySet.mem peer []) && can_replicate_to peer eu a) (eu ∷ ap ∷ []))
outbox-replicate_example = outbox-replicate 7 (membership_add lobby ann tag) none (some eu) a refl

only_europe :
    (replicate 7 (membership_add lobby ann tag) none (some eu) a).outbox
    ≡ (eu, op_of 7 (membership_add lobby ann tag) none (some eu) a) ∷ []
unfolding replicate can_replicate_to KeySet.mem Map.get key_dec
only_europe = refl

abbrev op : Op ℕ
op = op_of 7 (membership_add lobby ann tag) none none a

handle_peer_operation-join_example :
    ((handle_peer_operation 9 op b).1 ≡ true)
    × (OrSet.has ann (room_of lobby (handle_peer_operation 9 op b).0).membership ≡ true)
unfolding KeySet.mem Map.get
handle_peer_operation-join_example = handle_peer_operation-join 9 ann lobby tag op b refl

abbrev joined : Region ℕ
joined = (handle_peer_operation 9 op b).0

abbrev leaving : Op ℕ
leaving = record op { change = membership_remove lobby ann (tag ∷ []) }

handle_peer_operation-leave_example :
    ((handle_peer_operation 9 leaving joined).1 ≡ true)
    × (OrSet.has ann (room_of lobby (handle_peer_operation 9 leaving joined).0).membership
        ≡ any
            (λ t.
              not (KeySet.mem t (tag ∷ []))
              && not (KeySet.mem t (room_of lobby joined).membership.removes))
            (OrSet.tags ann (room_of lobby joined).membership))
handle_peer_operation-leave_example = handle_peer_operation-leave 9 ann lobby (tag ∷ []) op joined

-- Every peer that is asked acknowledges.
abbrev answers : Key → Op ℕ → Answer
answers peer o = ack

all-Unique : KeySet.Unique all
unfolding KeySet.mem key_dec
all-Unique = (refl, (refl, (refl, tt)))

a-IsMember : IsMember all a
unfolding KeySet.mem KeySet.delete key_dec
a-IsMember = record { own = refl; others = refl; computed = refl }

b-IsMember : IsMember all b
unfolding KeySet.mem KeySet.delete key_dec
b-IsMember = record { own = refl; others = refl; computed = refl }

a-committed : (quorum_replicate answers 7 (global_config tag 1) none a).1.committed ≡ true
unfolding quorum_replicate quorum_size send_all KeySet.mem key_dec
a-committed = refl

b-committed : (quorum_replicate answers 8 (global_config tag 2) none b).1.committed ≡ true
unfolding quorum_replicate quorum_size send_all KeySet.mem key_dec
b-committed = refl

committed_overlap_example :
    (x : Key) × (KeySet.mem x all ≡ true)
    × (has_taken answers (op_of 7 (global_config tag 1) none (some residency_global) a) a x ≡ true)
    × (has_taken answers (op_of 8 (global_config tag 2) none (some residency_global) b) b x ≡ true)
committed_overlap_example =
    committed_overlap all all-Unique answers answers 7 8 (global_config tag 1) (global_config tag 2)
      none none a b a-IsMember b-IsMember a-committed b-committed

-- A hash that marks what it has hashed.
abbrev hash : Key → Key
hash text = b'h' ∷ text

merkle_root_repeat_example :
    (is_some (merkle_root hash (us ∷ eu ∷ ap ∷ [])) ≡ true)
    × (merkle_root hash (us ∷ eu ∷ ap ∷ ap ∷ []) ≡ merkle_root hash (us ∷ eu ∷ ap ∷ []))
merkle_root_repeat_example = merkle_root_repeat hash us eu [] ap tt

root_of_three :
    merkle_root hash (us ∷ eu ∷ ap ∷ []) ≡ some (hash (hash (us ++ eu) ++ hash (ap ++ ap)))
unfolding merkle_root climb next_level
root_of_three = refl

-- Two answers to one message, the second one first, and an answer to that.
abbrev message : Key → Option Key → Node ℕ
message id origin_left = record {
  id = id;
  origin_left = origin_left;
  value = 0;
  tombstoned = false;
}

abbrev thread : Map (Node ℕ)
thread =
    (key "m1", message (key "m1") none)
    ∷ (key "m3", message (key "m3") (some (key "m1")))
    ∷ (key "m2", message (key "m2") (some (key "m1")))
    ∷ (key "m4", message (key "m4") (some (key "m2")))
    ∷ []

thread-Unique : KeySet.Unique (key "m1" ∷ key "m3" ∷ key "m2" ∷ key "m4" ∷ [])
unfolding KeySet.mem key_dec
thread-Unique = (refl, (refl, (refl, (refl, tt))))

thread-plain : KeySet.mem head_key (key "m1" ∷ key "m3" ∷ key "m2" ∷ key "m4" ∷ []) ≡ false
unfolding KeySet.mem key_dec
thread-plain = refl

traverse_returns_example : is_some (traverse thread) ≡ true
traverse_returns_example = traverse_returns thread thread-Unique thread-plain

thread_order : last_visible_id thread ≡ some (some (key "m3"))
unfolding last_visible_id to_array last_id traverse walk children_of group sort_by_id insert_by_id
    compare_message_ids compare_text Map.get Map.set key_dec
thread_order = refl
