-- ===== src/Event.antt =====
-- event.rs: the events that cross to the user interface, and the bus that numbers and delivers them.
-- The payload of an event is what the code puts into it; the fraction of a progress event, a float,
-- is left out. A sink is a type of the model's user: `publish` returns what is delivered to it.
use rc_launcher.Base.{ℕ, ◌+◌, ◌%◌, ◌^◌, Bool, true, false, Option, none, some}
use rc_launcher.Base.Text.{Text, codes}

pub data EventKind : Type 0 where
  progress log lifecycle error status : EventKind

-- `EventKind::as_str`
unfoldable pub event_kind_str : EventKind → Text
event_kind_str progress = codes "progress"
event_kind_str log = codes "log"
event_kind_str lifecycle = codes "lifecycle"
event_kind_str error = codes "error"
event_kind_str status = codes "status"

-- The fields of the JSON object in `data`; `value` is one that the caller gives.
pub data Payload (V : Type 0) : Type 0 where
  fraction_of : ℕ → Option ℕ → Payload V
  level : Text → Payload V
  phase : Text → Payload V
  value : V → Payload V

pub record Event (V : Type 0) : Type 0 where
  pub seq : ℕ
  pub kind : EventKind
  pub message : Text
  pub scope : Text
  pub payload : Option (Payload V)

module _ {V : Type 0} where
  -- An event before the bus numbers it.
  abbrev pub unnumbered : EventKind → Text → Text → Option (Payload V) → Event V
  unnumbered kind scope message payload = record {
    seq = 0;
    kind = kind;
    message = message;
    scope = scope;
    payload = payload;
  }

  -- `Event::progress`
  abbrev pub progress_event : Text → Text → ℕ → Option ℕ → Event V
  progress_event scope message downloaded total =
      unnumbered progress scope message (some (fraction_of downloaded total))

  -- `Event::log`
  abbrev pub log_event : Text → Text → Text → Event V
  log_event scope lvl line = unnumbered log scope line (some (level lvl))

  -- `Event::lifecycle`
  abbrev pub lifecycle_event : Text → Text → Text → Event V
  lifecycle_event scope ph message = unnumbered lifecycle scope message (some (phase ph))

  -- `Event::error`
  abbrev pub error_event : Text → Text → Event V
  error_event scope message = unnumbered error scope message none

  -- `Event::status`
  abbrev pub status_event : Text → Text → V → Event V
  status_event scope message data_value = unnumbered status scope message (some (value data_value))

pub record EventBus (S : Type 0) : Type 0 where
  pub sink : Option S
  pub next_seq : ℕ

module _ {S : Type 0} where
  -- `EventBus::new`
  abbrev pub new_bus : EventBus S
  new_bus = record { sink = none; next_seq = 0 }

  -- `EventBus::has_sink`
  unfoldable pub has_sink : EventBus S → Bool
  has_sink b = elim b.sink [ none ↦ false | some _ ↦ true ]

  -- Whether a sink was replaced, and the bus with the new one.
  unfoldable pub subscribe : S → EventBus S → Bool × EventBus S
  unfolding has_sink
  subscribe s b = (has_sink b, record b { sink = some s })

  abbrev pub unsubscribe : EventBus S → EventBus S
  unsubscribe b = record b { sink = none }

  -- `publish`: the bus, the event with its number, and the sink that gets it, if there is one
  unfoldable pub publish : {V : Type 0} → Event V → EventBus S → EventBus S × Event V × Option S
  publish e b =
      (record b { next_seq = (b.next_seq + 1) % 2 ^ 64 }, record e { seq = b.next_seq }, b.sink)
