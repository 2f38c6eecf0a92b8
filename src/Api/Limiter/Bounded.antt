-- ===== src/Api/Limiter/Bounded.antt =====
-- How many streams the limiter of internal/api/errors.go lets run.
use dockerdless.Base.{
  ◌-◌, ℕ, zero, suc, ◌+◌, ◌<◌, ◌≤◌, ◌≡◌, refl, Option, none, some, List, [], ◌∷◌, Result, ok, err,
  ℤ, pos, negsuc, arith, subst, ◌∙◌,
}
use dockerdless.Domain.Registry.{ContextError, Context}
use dockerdless.Api.Limiter.{
  StreamLimiter, new_stream_limiter, release_slot, Acquires, unlimited, sends, gives_up,
  LimiterEvent, acquired, gave_up, released, Led, created, by_acquire, by_giving_up, by_release,
}

abbrev pub acquisitions : List LimiterEvent → ℕ
acquisitions [] = 0
acquisitions (acquired ∷ es) = suc (acquisitions es)
acquisitions (gave_up ∷ es) = acquisitions es
acquisitions (released ∷ es) = acquisitions es

abbrev pub releases : List LimiterEvent → ℕ
releases [] = 0
releases (acquired ∷ es) = releases es
releases (gave_up ∷ es) = releases es
releases (released ∷ es) = suc (releases es)

-- What holds of a limiter that the events have led to.
abbrev IsBounded : StreamLimiter → List LimiterEvent → StreamLimiter → Type 0
IsBounded l es m =
    (m.capacity ≡ l.capacity)
    × (m.held ≤ m.capacity)
    × (acquisitions es + l.held ≤ m.held + releases es)

-- A successful return took a free slot.
slot_taken :
    (m n : Option StreamLimiter) (ctx : Context) (r : Result ContextError (Unit {0}))
    → Acquires m ctx r n
    → (a b : StreamLimiter) → m ≡ some a
    → n ≡ some b
    → r ≡ ok tt
    → (b.capacity ≡ a.capacity) × (a.held < a.capacity) × (b.held ≡ suc a.held)
slot_taken none none ctx (ok tt) unlimited a b e f g = absurd cc
slot_taken _ _ ctx _ (sends capacity held h) a b e f g = (ground arith, ground arith, ground arith)
slot_taken _ _ _ _ (gives_up l) a b e f g = absurd cc

-- A return with an error took none.
slot_kept :
    (m n : Option StreamLimiter) (ctx : Context) (r : Result ContextError (Unit {0}))
    → Acquires m ctx r n
    → (a b : StreamLimiter) (x : ContextError) → m ≡ some a
    → n ≡ some b
    → r ≡ err x
    → a ≡ b
slot_kept _ _ ctx _ unlimited a b x e f g = absurd cc
slot_kept _ _ ctx _ (sends capacity held h) a b x e f g = absurd cc
slot_kept _ _ _ _ (gives_up l) a b x e f g = cc

released_one :
    (m n : StreamLimiter)
    → release_slot (some m) ≡ some n
    → (n.capacity ≡ m.capacity) × (n.held ≡ m.held - 1)
unfolding release_slot
released_one m n h = (ground arith, ground arith)

Led-IsBounded :
    (l m : StreamLimiter) (es : List LimiterEvent)
    → l.held ≤ l.capacity
    → Led l es m
    → IsBounded l es m
Led-IsBounded l _ [] h (created _) = (refl, h, omega arith)
Led-IsBounded l n (acquired ∷ es) h (by_acquire {m = m} ctx led step) =
    let (same, within, count) = Led-IsBounded l m es h led in
    let (kept, free, one) = slot_taken (some m) (some n) ctx (ok tt) step m n refl refl refl in
    (kept ∙ same, omega (arith, free, one, kept), omega (arith, count, one))
Led-IsBounded l n (gave_up ∷ es) h (by_giving_up {m = m} {e = e} ctx led step) =
    let bounded = Led-IsBounded l m es h led in
    subst (IsBounded l (gave_up ∷ es))
      (slot_kept (some m) (some n) ctx (err e) step m n e refl refl refl) bounded
Led-IsBounded l n (released ∷ es) h (by_release {m = m} led step) =
    let (same, within, count) = Led-IsBounded l m es h led in
    let (kept, less_held) = released_one m n step in
    (kept ∙ same, omega (arith, within, kept, less_held), omega (arith, count, less_held))

new_stream_limiter-empty :
    (limit : ℤ) → ((new_stream_limiter limit).held ≡ 0) × (0 < (new_stream_limiter limit).capacity)
unfolding new_stream_limiter
new_stream_limiter-empty (pos zero) = (refl, omega arith)
new_stream_limiter-empty (pos (suc n)) = (refl, omega arith)
new_stream_limiter-empty (negsuc n) = (refl, omega arith)

-- Whatever handlers acquire, give up and release, in any order, on a new limiter: no more slots are
-- held than its positive capacity, and at any time at most that many streams have acquired a slot
-- without a release.
pub limiter_bound :
    (limit : ℤ) (es : List LimiterEvent) (m : StreamLimiter)
    → Led (new_stream_limiter limit) es m
    → (0 < (new_stream_limiter limit).capacity)
      × (m.held ≤ (new_stream_limiter limit).capacity)
      × (acquisitions es ≤ (new_stream_limiter limit).capacity + releases es)
limiter_bound limit es m led =
    let (empty, some_slot) = new_stream_limiter-empty limit in
    let (same, within, count) =
      Led-IsBounded (new_stream_limiter limit) m es (omega (arith, empty)) led in
    (some_slot, omega (arith, same, within), omega (arith, same, within, count, empty))
