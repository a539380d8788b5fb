-- ===== src/EventSourcing/Stack.antt =====
-- `createEventSourcing` of src/event-sourcing.js: the three repositories over one store, the commands and
-- the projections, which are told of every committed batch. A command comes with what it draws from the
-- platform.
use real_time_spatial_tracki.Base.{ℕ, Bool, List, [], Option, none, some, Key, key}
use real_time_spatial_tracki.EventSourcing.{Event, Result}
use real_time_spatial_tracki.EventSourcing.Store.{empty}
use real_time_spatial_tracki.EventSourcing.Repository.{Repository, init}
use real_time_spatial_tracki.EventSourcing.Payload.{Payload, Geometry, Draw}
use real_time_spatial_tracki.EventSourcing.Classes.{State}
use real_time_spatial_tracki.EventSourcing.Dispatch.{
  Handler, CommandHandler, Envelope, register, dispatch,
}
use real_time_spatial_tracki.EventSourcing.Commands.{
  Action, publish_location, join_room, leave_room, acknowledge, negative_acknowledge,
  update_geofence, resume_session, Command, World, handle,
}
use real_time_spatial_tracki.EventSourcing.Projections.{Manager, new_manager, process_events}
use real_time_spatial_tracki.EventSourcing.Projections.Builtin.{
  Reading, register_default_projections,
}

-- `CommandTypes`.
unfoldable pub command_type : {L F : Type 0} → Action L F → Key
command_type (publish_location fix) = key "publish_location"
command_type (join_room r) = key "join_room"
command_type (leave_room r) = key "leave_room"
command_type (acknowledge r seq) = key "acknowledge"
command_type (negative_acknowledge r seq reason) = key "negative_acknowledge"
command_type (update_geofence r fences) = key "update_geofence"
command_type (resume_session rooms) = key "resume_session"

abbrev pub Request : Type 0 → Type 0 → Type 0
Request L F = Draw × Command L F

abbrev pub envelope : {L F : Type 0} → Envelope (Request L F)
unfolding command_type
envelope = record {
  command_id = λ request. request.1.command_id;
  type = λ request. command_type request.1.action;
}

pub record Stack (L F N : Type 0) : Type 0 where
  pub world : World L F
  pub fleets : Repository (State L F)
  pub commands : CommandHandler (Request L F) (Payload L F) (World L F)
  pub projections : Manager (Payload L F) N

module _ {L F : Type 0} where
  abbrev handler : Geometry L F → Handler (Request L F) (Payload L F) (World L F)
  handler g request w = handle g request.0 request.1 w

  abbrev new_commands : CommandHandler (Request L F) (Payload L F) (World L F)
  new_commands = record {
    handlers = [];
    dedup = [];
    dedup_cache_size = 10000;
    commands_total = 0;
    commands_deduplicated_total = 0;
  }

module _ {L F N : Type 0} where
  unfoldable pub create_event_sourcing : Geometry L F → Reading L N → Option ℕ → Bool → Stack L F N
  unfolding register register_default_projections init empty
  create_event_sourcing g rd snapshot_every snapshots_enabled =
      let handle = handler g in
      record {
        world = record {
          vehicles = init snapshot_every snapshots_enabled;
          rooms_repo = some (init snapshot_every snapshots_enabled);
          store = empty;
        };
        fleets = init snapshot_every snapshots_enabled;
        commands = register (key "resume_session") handle (
            register (key "update_geofence") handle (
              register (key "negative_acknowledge") handle (
                register (key "acknowledge") handle (
                  register (key "leave_room") handle (
                    register (key "join_room") handle
                      (register (key "publish_location") handle new_commands))))));
        projections = register_default_projections rd new_manager;
      }

  -- One command is dispatched, and the projections are told of the events that it commits.
  unfoldable pub execute :
      Request L F → Stack L F N → Stack L F N × Result (List (Event (Payload L F)))
  unfolding dispatch process_events
  execute request stack =
      let done = dispatch envelope request stack.commands stack.world in
      (
        record stack {
          world = done.world;
          commands = done.handler;
          projections = elim done.notified [
            | none ↦ stack.projections
            | some events ↦ (process_events events stack.projections).0
          ];
        },
        done.result,
      )
