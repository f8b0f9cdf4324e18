-- ===== src/Tests/SyncBus.antt =====
-- Runs of syncbus/syncbus.go, over association lists for the sharded maps.
use go_warp.Base.{
  ℕ, ◌≡◌, ◌≢◌, refl, pos, Bool, List, [], ◌∷◌, Key, key_eq, key_beq, nat_eq, lookup, insert, delete,
  lookup-insert, lookup-delete, Option, none, some,
}
use go_warp.Errors.{Error}
use go_warp.SyncBus.SafeMap.{MapOps, IsMap}
use go_warp.SyncBus.Channels.{send, close, remove_channel}
use go_warp.SyncBus.InMemory.{
  InMemoryBus, event_of, no_publish_options, returned, panic, quorum_not_satisfied, publish,
  publish_and_await, subscribe, unsubscribe, new_in_memory_bus, channels_of, at_least_one,
}
use go_warp.SyncBus.InMemory.Reach.{
  Reach, start, later, subscribes, unsubscribes, publish_never_panics, Reach-IsValid,
}
use go_warp.SyncBus.InMemory.Quorum.{Awaited, publish_and_await-Awaited}

program : Unit {0}
unfolding publish publish_and_await subscribe unsubscribe new_in_memory_bus lookup insert delete
    key_beq send close remove_channel event_of
program = tt

abbrev assoc : {V : Type 0} → MapOps (List (Key × V)) V
assoc = record {
  get = λ k m. lookup k m;
  compute = λ k f m. insert k (f (lookup k m)) m;
  delete = λ k m. delete k m;
}

assoc-IsMap : {V : Type 0} → IsMap (assoc {V = V})
assoc-IsMap = record {
  get-compute = λ k j f m. lookup-insert k j (f (lookup k m)) m;
  get-delete = λ k j m. lookup-delete k j m;
}

abbrev Bus : Type 0
Bus = InMemoryBus (List (Key × List ℕ)) (List (Key × Bool))

abbrev topic : Key
topic = 7 ∷ []

abbrev empty : Bus
empty = record { subs = []; pending = []; chans = []; next = 0; published = 0; delivered = 0 }

abbrev never : ℕ → Option Error
never i = none

-- Two subscribers of a key, the first of which has left.
abbrev left_one : Bus
left_one =
    (unsubscribe assoc assoc none topic 0
      (subscribe assoc assoc none topic (subscribe assoc assoc none topic empty).1).1).1

left_one-Reach : Reach assoc assoc assoc-IsMap left_one
unfolding program
left_one-Reach =
    later (later (later (start [] [] (λ k. refl)) (subscribes none topic)) (subscribes none topic))
      (unsubscribes none topic 0)

publish_never_panics_example :
    ((publish assoc assoc none never topic no_publish_options left_one).0 ≢ panic)
    × ((publish_and_await assoc assoc none never topic (pos 1) no_publish_options left_one).0
        ≢ panic)
publish_never_panics_example =
    publish_never_panics assoc assoc assoc-IsMap left_one-Reach none never topic (pos 1)
      no_publish_options

publish_and_await-Awaited_example :
    Awaited assoc assoc
      (at_least_one (pos 2))
      (event_of topic no_publish_options)
      (channels_of assoc assoc topic left_one)
      left_one
      (publish_and_await assoc assoc none never topic (pos 2) no_publish_options left_one)
unfolding program
publish_and_await-Awaited_example =
    publish_and_await-Awaited assoc assoc never topic (pos 2) no_publish_options left_one
      (Reach-IsValid assoc assoc assoc-IsMap left_one-Reach) (λ k. refl) refl

-- One subscriber is no quorum of two, and is one of one; a full channel is none.
quorum :
    ((publish_and_await assoc assoc none never topic (pos 2) no_publish_options left_one).0
      ≡ returned (some quorum_not_satisfied))
    × ((publish_and_await assoc assoc none never topic (pos 0) no_publish_options left_one).0
        ≡ returned none)
    × ((publish_and_await assoc assoc none never topic
          (pos 1)
          no_publish_options
          (publish assoc assoc none never topic no_publish_options left_one).1).0
        ≡ returned (some quorum_not_satisfied))
unfolding program
quorum = (refl, refl, refl)
