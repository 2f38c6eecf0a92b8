-- ===== src/Api/Limiter.antt =====
-- The stream limiter of internal/api/errors.go: a channel whose buffer has a slot for each stream.
-- A select that finds several cases ready takes any of them, so acquire is a relation.
pub mod Bounded
mod Tests
use dockerdless.Base.{
  ℕ, zero, suc, ◌+◌, ◌-◌, ◌<◌, ◌≡◌, Option, none, some, List, [], ◌∷◌, Result, ok, err, ℤ, pos,
  negsuc,
}
use dockerdless.Domain.Registry.{ContextError, Context, live, done}

abbrev pub default_stream_limit : ℕ
default_stream_limit = 64

-- The buffer of the channel: its size, and how many values are in it.
pub record StreamLimiter : Type 0 where
  pub capacity : ℕ
  pub held : ℕ

unfoldable pub new_stream_limiter : ℤ → StreamLimiter
new_stream_limiter (pos zero) = record { capacity = default_stream_limit; held = 0 }
new_stream_limiter (pos (suc n)) = record { capacity = suc n; held = 0 }
new_stream_limiter (negsuc n) = record { capacity = default_stream_limit; held = 0 }

-- A return of acquire: the limiter, the context, the answer, and the limiter afterwards. Where no
-- case is ready there is no step: the caller waits. The limiter `none` is nil.
pub data Acquires
    : Option StreamLimiter
      → Context
      → Result ContextError (Unit {0})
      → Option StreamLimiter
      → Type 0 where
  unlimited : {ctx : Context} → Acquires none ctx (ok tt) none
  sends :
      {ctx : Context} (capacity held : ℕ)
      → held < capacity
      → Acquires
          (some (record { capacity = capacity; held = held }))
          ctx
          (ok tt)
          (some (record { capacity = capacity; held = suc held }))
  gives_up : {e : ContextError} (l : StreamLimiter) → Acquires (some l) (done e) (err e) (some l)

unfoldable pub release_slot : Option StreamLimiter → Option StreamLimiter
release_slot none = none
release_slot (some l) = some (record l { held = l.held - 1 })

-- What handlers have done, the last one first.
pub data LimiterEvent : Type 0 where
  acquired gave_up released : LimiterEvent

-- A limiter and the returns that have led to it, in any order and from any number of handlers.
pub data Led : StreamLimiter → List LimiterEvent → StreamLimiter → Type 0 where
  created : (l : StreamLimiter) → Led l [] l
  by_acquire :
      {l m n : StreamLimiter} {es : List LimiterEvent} (ctx : Context)
      → Led l es m
      → Acquires (some m) ctx (ok tt) (some n)
      → Led l (acquired ∷ es) n
  by_giving_up :
      {l m n : StreamLimiter} {es : List LimiterEvent} {e : ContextError} (ctx : Context)
      → Led l es m
      → Acquires (some m) ctx (err e) (some n)
      → Led l (gave_up ∷ es) n
  by_release :
      {l m n : StreamLimiter} {es : List LimiterEvent}
      → Led l es m
      → release_slot (some m) ≡ some n
      → Led l (released ∷ es) n
