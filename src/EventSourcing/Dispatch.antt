-- ===== src/EventSourcing/Dispatch.antt =====
-- `CommandHandler` of src/event-sourcing.js. `C` is the type of commands and `W` that of what their
-- handlers change; the subscribers that are told of the events are not part of the state.
pub mod Once
use real_time_spatial_tracki.Base.{
  ℕ, ◌+◌, Bool, true, false, List, [], ◌∷◌, Option, none, some, Key, ltb, if◌then◌else◌, length,
}
use real_time_spatial_tracki.Base.Map
use real_time_spatial_tracki.Base.Map.{Map}
use real_time_spatial_tracki.EventSourcing.{Event, Failure, no_handler, Result, ok, failed}

abbrev pub Handler : Type 0 → Type 0 → Type 0 → Type 0
Handler C P W = C → W → W × Result (List (Event P))

pub record CommandHandler (C P W : Type 0) : Type 0 where
  pub handlers : Map (Handler C P W)
  pub dedup : Map (List (Event P))
  pub dedup_cache_size : ℕ
  pub commands_total : ℕ
  pub commands_deduplicated_total : ℕ

-- What the dispatcher reads of a command.
pub record Envelope (C : Type 0) : Type 0 where
  pub command_id : C → Key
  pub type : C → Key

pub record Dispatched (C P W : Type 0) : Type 0 where
  pub handler : CommandHandler C P W
  pub world : W
  pub result : Result (List (Event P))
  -- What the subscribers are told.
  pub notified : Option (List (Event P))

-- The `while` loop of `dispatch`: the oldest entries go until the cache fits.
unfoldable pub evict {ℓ} : {V : Type ℓ} → ℕ → Map V → Map V
evict size [] = []
evict size ((k, v) ∷ m) =
    let rest = evict size m in if ltb size (length ((k, v) ∷ m)) then rest else (k, v) ∷ m

abbrev pub told : {P : Type 0} → List (Event P) → Option (List (Event P))
told [] = none
told (e ∷ events) = some (e ∷ events)

module _ {C P W : Type 0} where
  unfoldable pub register : Key → Handler C P W → CommandHandler C P W → CommandHandler C P W
  register type handler h = record h { handlers = Map.set type handler h.handlers }

  -- What follows a handler's return.
  unfoldable pub settle :
      Key → W × Result (List (Event P)) → CommandHandler C P W → Dispatched C P W
  unfolding evict
  settle id (world, failed failure) h = record {
    handler = h;
    world = world;
    result = failed failure;
    notified = none;
  }
  settle id (world, ok events) h = record {
    handler = record h {
      commands_total = h.commands_total + 1;
      dedup = evict h.dedup_cache_size (Map.set id events h.dedup);
    };
    world = world;
    result = ok events;
    notified = told events;
  }

  unfoldable pub dispatch : Envelope C → C → CommandHandler C P W → W → Dispatched C P W
  unfolding settle
  dispatch env command h world = elim (Map.get (env.command_id command) h.dedup) [
    | some events ↦ record {
      handler = record h { commands_deduplicated_total = h.commands_deduplicated_total + 1 };
      world = world;
      result = ok events;
      notified = none;
    }
    | none ↦ elim (Map.get (env.type command) h.handlers) [
      | none ↦ record { handler = h; world = world; result = failed no_handler; notified = none }
      | some handle ↦ settle (env.command_id command) (handle command world) h
    ]
  ]
