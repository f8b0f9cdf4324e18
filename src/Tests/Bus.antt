-- ===== src/Tests/Bus.antt =====
-- Runs of streambus/inmemory.go.
use go_warp.Base.{
  ℕ, ◌≡◌, refl, pos, true, false, not, ◌&&◌, ◌||◌, Bool, none, some, List, [], ◌∷◌, Key, key_eq,
  key_beq, lookup, insert, delete, arith, length,
}
use go_warp.StreamBus.Ring.{Frame, no_frame, item_at}
use go_warp.StreamBus.Subscription.{SubscribeOptions, block, new_subscription, close}
use go_warp.StreamBus.Replay.{new_replay_buffer, add, after, last}
use go_warp.StreamBus.Replay.Recent.{add_all}
use go_warp.StreamBus.Replay.Since.{later}
use go_warp.StreamBus.Bus.{
  Routes, has_id, add_id, delete_id, add_ids, insert_prefix, remove_prefix, walk, exact_of, targets,
  register, remove, collect,
}
use go_warp.StreamBus.Bus.Trie.{any_prefix}
use go_warp.StreamBus.Bus.Routing.{is_registered, is_of, routes_refine}
use go_warp.StreamBus.InMemory.{
  InMemory, Request, id_eq, new_in_memory, settled, sized_buffer, options_of, preloaded, replay_of,
  subscribe, publish, fan_out, refused,
}
use go_warp.StreamBus.Config.{normalized, payload_too_large}
use go_warp.StreamBus.InMemory.Close.{close_bus, close_sub}
use go_warp.StreamBus.InMemory.Resume.{subscribe-resumes}

program : Unit {0}
unfolding item_at new_subscription close new_replay_buffer add after last add_all later add_id
    delete_id add_ids insert_prefix remove_prefix walk exact_of targets register remove collect
    new_in_memory normalized replay_of subscribe publish close_bus close_sub lookup insert delete
    key_beq
program = tt

abbrev topic : Key
topic = 1 ∷ 2 ∷ []

abbrev exact : SubscribeOptions
exact = record { topic = topic; prefix = false; buffer = 2; overflow = block }

abbrev whole : SubscribeOptions
whole = record exact { topic = 1 ∷ []; prefix = true }

-- One subscription to a prefix.
abbrev routes : Routes
routes =
    register whole 7
      (new_in_memory (record {
        default_buffer = pos 0;
        max_buffer = pos 0;
        replay_capacity = pos 2;
        max_payload = pos 4;
      })).routes

routes_refine_example :
    ((kind : Bool) (q : Key)
      → (is_registered 7 kind q (register exact 8 routes)
          ≡ (is_registered 7 kind q routes || is_of exact 8 7 kind q))
        × (is_registered 7 kind q (remove exact 8 routes)
            ≡ (is_registered 7 kind q routes && not (is_of exact 8 7 kind q))))
    × (has_id 7 (targets topic routes) ≡ (
        is_registered 7 false topic routes
        || any_prefix topic (λ q. is_registered 7 true q routes)))
routes_refine_example = routes_refine exact 8 7 topic routes

targets_run :
    (targets topic (register exact 8 routes) ≡ 7 ∷ 8 ∷ []) × (targets (2 ∷ []) routes ≡ [])
unfolding program
targets_run = (refl, refl)

abbrev frame : ℕ → Frame
frame n = record no_frame { sequence = n; topic = topic }

abbrev history : List Frame
history = frame 1 ∷ frame 2 ∷ frame 3 ∷ []

abbrev bus : InMemory
bus =
    record (new_in_memory (record {
      default_buffer = pos 0;
      max_buffer = pos 0;
      replay_capacity = pos 2;
      max_payload = pos 4;
    })) {
      routes = routes;
      replay = (topic, add_all history (new_replay_buffer 2)) ∷ [];
      seq = 3;
      sub_seq = 7;
    }

abbrev request : Request
request = record {
  topic = topic;
  prefix = false;
  buffer = pos 0;
  overflow = block;
  replay = pos 0;
  since = 2;
}

journal : lookup request.topic bus.replay ≡ some (add_all history (new_replay_buffer 2))
unfolding program
journal = refl

accepted : (subscribe none request bus).0.0 ≡ none
unfolding program
accepted = refl

subscribe-resumes_example :
    let (answer, b') = subscribe none request bus in
    let options = options_of (settled (sized_buffer bus.config request.buffer) request) in
    (bus.closed ≡ false)
    × (b'.routes ≡ register options answer.1 bus.routes)
    × (lookup answer.1 b'.subs
        ≡ some (preloaded (later request.since history) (new_subscription answer.1 options)))
    × ((preloaded (later request.since history) (new_subscription answer.1 options)).dropped ≡ 0)
    × ((preloaded (later request.since history) (new_subscription answer.1 options)).queue.len
        ≡ length (later request.since history))
subscribe-resumes_example =
    subscribe-resumes 2 history request bus journal (omega arith)
      (omega arith, (omega arith, (omega arith, tt))) refl (omega arith) accepted

publish_run :
    (let (out, b') = publish (pos 9) none (record (frame 0) { payload = 5 ∷ [] }) bus in
      out ≡ fan_out (record (frame 4) { payload = 5 ∷ []; timestamp = pos 9 }) (7 ∷ []))
    × ((publish (pos 9) none (record (frame 0) { payload = 1 ∷ 2 ∷ 3 ∷ 4 ∷ 5 ∷ [] }) bus).0
        ≡ refused payload_too_large)
unfolding program
publish_run = (refl, refl)

-- Close closes the subscription and forgets the routes.
close_run : (close_bus bus).routes ≡ (new_in_memory bus.config).routes
unfolding program
close_run = refl
