-- ===== src/StreamBus/InMemory.antt =====
-- streambus/inmemory.go: Publish and Subscribe of InMemory, each up to its unlock. `subs` has
-- every subscription that was made, by its id. A context is the error that it has when it is read.
pub mod Close
pub mod Resume
use go_warp.Base.{
  ℕ, zero, suc, ◌+◌, ◌*◌, ◌%◌, ◌^◌, ◌≡◌, ℤ, pos, ltb_ℤ, leb_ℤ, beq_ℤ, pos_part, Time, Bool, true,
  false, not, ◌&&◌, ◌||◌, List, [], ◌∷◌, Key, key_eq, lookup, insert, delete, Option, none, some,
  if◌then◌else◌, nat_beq, nat_beq_iff, Eq, ltb, length,
}
use go_warp.Errors.{Error}
use go_warp.StreamBus.Ring.{Frame}
use go_warp.StreamBus.Subscription.{
  Subscription, SubscribeOptions, OverflowPolicy, new_subscription, preload, close, add_count,
}
use go_warp.StreamBus.Replay.{ReplayBuffer, new_replay_buffer, add, last, after}
use go_warp.StreamBus.Bus.{Routes, new_prefix_node, targets, register, remove, collect, add_ids}
use go_warp.StreamBus.Config.{
  BusError, closed_error, subscription_done, invalid_topic, payload_too_large, invalid_buffer,
  replay_unavailable, context_error, Config, normalized,
}

-- Ids are the keys of Go's maps of subscriptions.
instance abbrev pub id_eq : Eq ℕ
id_eq = record { beq = nat_beq; beq_iff = nat_beq_iff }

pub record InMemory : Type 0 where
  pub config : Config
  pub routes : Routes
  pub replay : List (Key × ReplayBuffer)
  pub seq : ℕ
  pub sub_seq : ℕ
  pub closed : Bool
  pub subs : List (ℕ × Subscription)

abbrev pub no_routes : Routes
no_routes = record { exact = []; prefix = new_prefix_node }

unfoldable pub new_in_memory : Config → InMemory
unfolding normalized
new_in_memory config = record {
  config = normalized config;
  routes = no_routes;
  replay = [];
  seq = 0;
  sub_seq = 0;
  closed = false;
  subs = [];
}

-- `b.replay[topic]`, made if it is missing.
abbrev pub journal_of : ℤ → Option ReplayBuffer → ReplayBuffer
journal_of capacity none = new_replay_buffer (pos_part capacity)
journal_of capacity (some r) = r

unfoldable pub note_frame : Frame → InMemory → InMemory
note_frame frame b =
    if ltb_ℤ (pos 0) b.config.replay_capacity
    then record b {
      replay =
          insert frame.topic
            (add frame (journal_of b.config.replay_capacity (lookup frame.topic b.replay)))
            b.replay;
    }
    else b

-- The zero time is replaced by that of the clock.
abbrev pub stamped_at : Time → Frame → Frame
stamped_at now frame =
    if beq_ℤ frame.timestamp (pos 0) then record frame { timestamp = now } else frame

abbrev pub numbered : ℕ → Frame → Frame
numbered n frame = record frame { sequence = n }

-- What Publish has after its unlock: its error, or the frame and whom to give it to.
pub data Published : Type 0 where
  refused : BusError → Published
  fan_out : Frame → List ℕ → Published

publish_open : Frame → InMemory → Published × InMemory
unfolding note_frame
publish_open frame b =
    if b.closed
    then (refused closed_error, b)
    else (fan_out frame (targets frame.topic b.routes), note_frame frame b)

publish_numbered : Time → Frame → InMemory → Published × InMemory
unfolding publish_open
publish_numbered now frame b =
    let n = add_count b.seq 1 in
    publish_open (stamped_at now (numbered n frame)) (record b { seq = n })

unfoldable pub publish : Time → Option Error → Frame → InMemory → Published × InMemory
unfolding publish_numbered
publish now ctx frame b =
    if nat_beq (length frame.topic) 0
    then (refused invalid_topic, b)
    else if ltb_ℤ b.config.max_payload (pos (length frame.payload))
    then (refused payload_too_large, b)
    else elim ctx [ some e ↦ (refused (context_error e), b) | none ↦ publish_numbered now frame b ]

-- `err != nil && err != ErrSubscriptionDone`
abbrev pub to_report : Option BusError → Option BusError
to_report none = none
to_report (some subscription_done) = none
to_report (some closed_error) = some closed_error
to_report (some invalid_topic) = some invalid_topic
to_report (some payload_too_large) = some payload_too_large
to_report (some invalid_buffer) = some invalid_buffer
to_report (some replay_unavailable) = some replay_unavailable
to_report (some (context_error e)) = some (context_error e)

-- The loop over the targets, with what each call of enqueue returns.
unfoldable pub give_all : (ℕ → Option BusError) → List ℕ → Option BusError
give_all enqueue [] = none
give_all enqueue (id ∷ ids) =
    let rest = give_all enqueue ids in
    elim (to_report (enqueue id)) [ none ↦ rest | some e ↦ some e ]

-- The options of a call of Subscribe.
pub record Request : Type 0 where
  pub topic : Key
  pub prefix : Bool
  pub buffer : ℤ
  pub overflow : OverflowPolicy
  pub replay : ℤ
  pub since : ℕ

abbrev pub sized_buffer : Config → ℤ → ℤ
sized_buffer c buffer = if beq_ℤ buffer (pos 0) then c.default_buffer else buffer

-- A prefix subscription replays nothing, and a negative number is none.
abbrev pub settled : ℤ → Request → Request
settled buffer q =
    if q.prefix
    then record q { buffer = buffer; replay = pos 0; since = 0 }
    else record q { buffer = buffer; replay = if ltb_ℤ q.replay (pos 0) then pos 0 else q.replay }

-- The frames to replay, where a missing answer is ErrReplayUnavailable.
replay_since : ℤ → List Frame × Bool → Option (List Frame)
replay_since buffer (frames, gap) =
    if gap || ltb_ℤ buffer (pos (length frames)) then none else some frames

unfoldable pub replay_of : Request → ℤ → Option ReplayBuffer → Option (List Frame)
unfolding replay_since
replay_of q capacity (some journal) =
    if ltb 0 q.since
    then replay_since q.buffer (after q.since journal)
    else if ltb_ℤ (pos 0) q.replay
    then some (last (pos_part q.replay) journal)
    else some []
replay_of q capacity none = if ltb 0 q.since && beq_ℤ capacity (pos 0) then none else some []

abbrev pub options_of : Request → SubscribeOptions
options_of q = record {
  topic = q.topic;
  prefix = q.prefix;
  buffer = pos_part q.buffer;
  overflow = q.overflow;
}

pub preloaded : List Frame → Subscription → Subscription
preloaded [] s = s
preloaded (frame ∷ frames) s = preload (frame ∷ frames) s

-- A new subscription, kept or closed at once.
finish_subscribe : Request → ℕ → Option (List Frame) → InMemory → (Option BusError × ℕ) × InMemory
unfolding preloaded
finish_subscribe q id none b = (
  (some replay_unavailable, id),
  record b { subs = insert id (close (new_subscription id (options_of q))) b.subs },
)
finish_subscribe q id (some frames) b = (
  (none, id),
  record b {
    subs = insert id (preloaded frames (new_subscription id (options_of q))) b.subs;
    routes = register (options_of q) id b.routes;
  },
)

subscribe_settled : Request → InMemory → (Option BusError × ℕ) × InMemory
unfolding finish_subscribe
subscribe_settled q b =
    let id = add_count b.sub_seq 1 in
    let b' = record b { sub_seq = id } in
    if b.closed
    then (
      (some closed_error, id),
      record b' { subs = insert id (close (new_subscription id (options_of q))) b.subs },
    )
    else finish_subscribe q id (replay_of q b.config.replay_capacity (lookup q.topic b.replay)) b'

-- Subscribe, with its error and the id of the subscription.
unfoldable pub subscribe : Option Error → Request → InMemory → (Option BusError × ℕ) × InMemory
unfolding subscribe_settled
subscribe ctx q b =
    let buffer = sized_buffer b.config q.buffer in
    if nat_beq (length q.topic) 0
    then ((some invalid_topic, 0), b)
    else if ltb_ℤ buffer (pos 1) || ltb_ℤ b.config.max_buffer buffer
    then ((some invalid_buffer, 0), b)
    else elim ctx [
      | some e ↦ ((some (context_error e), 0), b)
      | none ↦ subscribe_settled (settled buffer q) b
    ]
