-- ===== src/StreamBus/Subscription/Preload.antt =====
-- streambus/subscription.go: a preload within the buffer drops nothing.
use go_warp.Base.{
  ◌+◌, ◌%◌, ◌^◌, ◌≤◌, ◌≡◌, refl, ◌∙◌, ap, true, List, [], ◌∷◌, key_eq, ltb, length, arith,
  Bool-cases, inl, inr,
}
use go_warp.StreamBus.Ring.{Frame}
use go_warp.StreamBus.Queue.{push}
use go_warp.StreamBus.Queue.Fifo.{IsFifo, push-lanes}
use go_warp.StreamBus.Queue.Invariant.{push-IsValid}
use go_warp.StreamBus.Subscription.{Subscription, preload, preload_each, preload_one}

preload_one-room :
    (frame : Frame) (s : Subscription)
    → (push frame s.queue).0 ≡ true
    → preload_one frame s
      ≡ record s { queue = (push frame s.queue).1; enqueued = (s.enqueued + 1) % 2 ^ 64 }
unfolding preload_one
preload_one-room frame s taken = simp taken refl

-- Frames that find room are all kept.
preload_each-kept :
    (frames : List Frame) (s : Subscription)
    → IsFifo s.queue
    → s.queue.len + length frames ≤ s.queue.capacity
    → let s' = preload_each frames s in
      (s'.dropped ≡ s.dropped) × (s'.queue.len ≡ s.queue.len + length frames)
unfolding preload_each
preload_each-kept [] s v room = (refl, omega arith)
preload_each-kept (frame ∷ frames) s v room =
    let (taken, valid, capacity, lanes) = push-lanes frame s.queue v (omega arith) in
    let (fine, refuses, same, more) = push-IsValid frame s.queue v.valid in
    let one = preload_one-room frame s taken in
    let (dropped, len) =
      preload_each-kept frames
        (record s { queue = (push frame s.queue).1; enqueued = (s.enqueued + 1) % 2 ^ 64 }) valid
        (omega (arith, more taken, capacity)) in
    (
      ap (λ (x : Subscription). (preload_each frames x).dropped) one ∙ dropped,
      ap (λ (x : Subscription). (preload_each frames x).queue.len) one
          ∙ omega (arith, len, more taken),
    )

pub preload-kept :
    (frames : List Frame) (s : Subscription)
    → IsFifo s.queue
    → s.queue.len ≡ 0
    → length frames ≤ s.queue.capacity
    → ((preload frames s).dropped ≡ s.dropped) × ((preload frames s).queue.len ≡ length frames)
unfolding preload
preload-kept frames s v none_there room =
    let (dropped, len) = preload_each-kept frames s v (omega (arith, none_there)) in
    elim (Bool-cases (ltb 0 (preload_each frames s).queue.len)) [
      | inl some_there ↦ simp some_there (dropped, omega (arith, len, none_there))
      | inr nothing ↦ simp nothing (dropped, omega (arith, len, none_there))
    ]
