-- ===== src/Api/Limiter/Tests.antt =====
-- Two handlers on a limiter of one slot (internal/api/errors.go).
use dockerdless.Base.{refl, ℕ, ◌+◌, ◌<◌, ◌≤◌, List, [], ◌∷◌, pos, arith}
use dockerdless.Domain.Registry.{live, done, canceled}
use dockerdless.Api.Limiter.{
  StreamLimiter, new_stream_limiter, release_slot, sends, gives_up, LimiterEvent, acquired, gave_up,
  released, Led, created, by_acquire, by_giving_up, by_release,
}
use dockerdless.Api.Limiter.Bounded.{acquisitions, releases, limiter_bound}

abbrev one_slot : ℕ → StreamLimiter
one_slot n = record { capacity = 1; held = n }

-- One handler acquires, another gives up, the first one releases.
abbrev history : List LimiterEvent
history = released ∷ gave_up ∷ acquired ∷ []

history-Led : Led (new_stream_limiter (pos 1)) history (one_slot 0)
unfolding new_stream_limiter release_slot
history-Led =
    by_release
      (by_giving_up (done canceled)
        (by_acquire live (created (one_slot 0)) (sends 1 0 (omega arith)))
        (gives_up {e = canceled} (one_slot 1)))
      refl

limiter_bound_example :
    (0 < (new_stream_limiter (pos 1)).capacity)
    × (0 ≤ (new_stream_limiter (pos 1)).capacity)
    × (acquisitions history ≤ (new_stream_limiter (pos 1)).capacity + releases history)
limiter_bound_example = limiter_bound (pos 1) history (one_slot 0) history-Led
