-- ===== src/Tests/Lock.antt =====
-- Runs of lock/memory.go.
use go_warp.Base.{◌≡◌, ◌≢◌, refl, pos, true, List, [], ◌∷◌, key_beq, lookup, insert, delete, none}
use go_warp.Errors.{ok}
use go_warp.Lock.Memory.{
  new_locker, try_lock, Event, tries, releases, hears_lock, hears_unlock, run,
}
use go_warp.Lock.Memory.Exclusion.{try_lock-excludes}
use go_warp.Tests.World.{key, other}

-- Another key comes and goes, and this one is tried and announced.
abbrev between : List Event
between =
    tries none other (pos 0)
    ∷ tries none key (pos 5)
    ∷ hears_lock key
    ∷ hears_unlock other
    ∷ releases other
    ∷ []

try_lock-excludes_example :
    (try_lock none key (pos 0) (run between (try_lock none key (pos 9) new_locker).1)).0 ≢ ok true
unfolding try_lock new_locker lookup insert delete key_beq
try_lock-excludes_example =
    try_lock-excludes none none key (pos 9) (pos 0) new_locker between refl
      (refl, (refl, (refl, (refl, (refl, tt)))))

-- A lock that is released and heard of is free again.
free_again :
    (try_lock none key (pos 0) (
      run
        (tries none key (pos 9) ∷ hears_lock key ∷ releases key ∷ hears_unlock key ∷ [])
        new_locker)).0
    ≡ ok true
unfolding try_lock run new_locker lookup insert delete key_beq
free_again = refl

-- The bus may drop an announcement. The lock of another node then passes for it, and is not seen.
swallowed :
    (try_lock none key
      (pos 0)
      (run (tries none key (pos 9) ∷ releases key ∷ hears_lock key ∷ []) new_locker)).0
    ≡ ok true
unfolding try_lock run new_locker lookup insert delete key_beq
swallowed = refl
