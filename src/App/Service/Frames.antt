-- ===== src/App/Service/Frames.antt =====
-- How a chain of the service's actions (internal/app) ends, from how its parts end, and what the parts
-- that only ask a port leave alone.
use dockerdless.Base.{◌≡◌, refl, ap, ◌∙◌, Result, ok, err, lookup}
use dockerdless.Domain.Registry.{Registry}
use dockerdless.Failures.{GoError}
use dockerdless.Cni.Ports.{PortKey, port_key_eq}
use dockerdless.App.Service.{State, Action, ◌>>=◌, ◌>>◌, bind_result, on_error, replace_error}

module _ {W : Type 0} where
  -- The failure condition and the success condition of a result.
  abbrev pub Ends :
      {A : Type 0}
      → (State W → Type 0)
      → (A → State W → Type 0)
      → Result GoError A × State W
      → Type 0
  Ends P Q (err e, t) = P t
  Ends P Q (ok a, t) = Q a t

  -- Only the world may have changed.
  pub record Quiet (s t : State W) : Type 0 where
    pub registry : t.registry ≡ s.registry
    pub logs : t.logs ≡ s.logs
    pub alloc : t.alloc ≡ s.alloc

  -- As Quiet, but the reservations need only be the same one by one.
  pub record Undone (s t : State W) : Type 0 where
    pub registry : t.registry ≡ s.registry
    pub logs : t.logs ≡ s.logs
    pub ports : (k : PortKey) → lookup k t.alloc.used ≡ lookup k s.alloc.used

  -- An action that is quiet whatever it answers.
  abbrev pub IsQuiet : {A : Type 0} → Action W A → Type 0
  IsQuiet m = (s : State W) → Quiet s (m s).1

  -- A condition on the registry that an action keeps, whatever it answers.
  abbrev pub Keeps : {A : Type 0} → (Registry → Type 0) → Action W A → Type 0
  Keeps P m = (s : State W) → P s.registry → P (m s).1.registry

  pub Quiet-refl : (s : State W) → Quiet s s
  Quiet-refl s = record { registry = refl; logs = refl; alloc = refl }

  pub Quiet-trans : (s t u : State W) → Quiet s t → Quiet t u → Quiet s u
  Quiet-trans s t u q r = record {
    registry = r.registry ∙ q.registry;
    logs = r.logs ∙ q.logs;
    alloc = r.alloc ∙ q.alloc;
  }

  pub Quiet→Undone : (s t : State W) → Quiet s t → Undone s t
  Quiet→Undone s t q = record {
    registry = q.registry;
    logs = q.logs;
    ports = λ k. ap (λ a. lookup k a.used) q.alloc;
  }

module _ {W A B : Type 0} (f : A → Action W B) where
  bind_result-Ends :
      (P : State W → Type 0) (R : A → State W → Type 0) (Q : B → State W → Type 0)
      (r : Result GoError A × State W)
      → Ends P R r
      → ((a : A) (t : State W) → R a t → Ends P Q (f a t))
      → Ends P Q (bind_result f r)
  bind_result-Ends P R Q (ok a, t) held next = next a t held
  bind_result-Ends P R Q (err e, t) held next = held

  pub >>=-Ends :
      (P : State W → Type 0) (R : A → State W → Type 0) (Q : B → State W → Type 0) (m : Action W A)
      (s : State W)
      → Ends P R (m s)
      → ((a : A) (t : State W) → R a t → Ends P Q (f a t))
      → Ends P Q ((m >>= f) s)
  unfolding ◌>>=◌
  >>=-Ends P R Q m s held next = bind_result-Ends P R Q (m s) held next

  bind_result-Quiet :
      (s : State W) (r : Result GoError A × State W)
      → Quiet s r.1
      → ((a : A) → IsQuiet (f a))
      → Quiet s (bind_result f r).1
  bind_result-Quiet s (ok a, t) q next = Quiet-trans s t (f a t).1 q (next a t)
  bind_result-Quiet s (err e, t) q next = q

  pub >>=-IsQuiet : (m : Action W A) → IsQuiet m → ((a : A) → IsQuiet (f a)) → IsQuiet (m >>= f)
  unfolding ◌>>=◌
  >>=-IsQuiet m q next s = bind_result-Quiet s (m s) (q s) next

module _ {W A B : Type 0} (P : Registry → Type 0) where
  bind_result-Keeps :
      (f : A → Action W B) (r : Result GoError A × State W)
      → P r.1.registry
      → ((a : A) → Keeps P (f a))
      → P (bind_result f r).1.registry
  bind_result-Keeps f (ok a, t) held next = next a t held
  bind_result-Keeps f (err e, t) held next = held

  pub >>=-Keeps :
      (m : Action W A) (f : A → Action W B)
      → Keeps P m
      → ((a : A) → Keeps P (f a))
      → Keeps P (m >>= f)
  unfolding ◌>>=◌
  >>=-Keeps m f first next s held = bind_result-Keeps f (m s) (first s held) next

pub >>-Keeps :
    {W B : Type 0} (P : Registry → Type 0) (m : Action W (Unit {0})) (k : Action W B)
    → Keeps P m
    → Keeps P k
    → Keeps P (m >> k)
unfolding ◌>>◌
>>-Keeps P m k first next = >>=-Keeps P m (λ u. k) first (λ u. next)

module _ {W A : Type 0} (P : Registry → Type 0) where
  replace_error-Keeps :
      (f : GoError → GoError) (r : Result GoError A × State W)
      → P r.1.registry
      → P (replace_error f r).1.registry
  replace_error-Keeps f (ok a, t) held = held
  replace_error-Keeps f (err e, t) held = held

  pub on_error-Keeps : (f : GoError → GoError) (m : Action W A) → Keeps P m → Keeps P (on_error f m)
  unfolding on_error
  on_error-Keeps f m kept s held = replace_error-Keeps f (m s) (kept s held)

-- Weaker conditions.
pub Ends-map :
    {W A : Type 0} (P R : State W → Type 0) (Q S : A → State W → Type 0)
    (r : Result GoError A × State W)
    → ((t : State W) → P t → R t)
    → ((a : A) (t : State W) → Q a t → S a t)
    → Ends P Q r
    → Ends R S r
Ends-map P R Q S (ok a, t) failed succeeded ends = succeeded a t ends
Ends-map P R Q S (err e, t) failed succeeded ends = failed t ends

-- The condition holds however the action ends.
pub Keeps-Ends :
    {W A : Type 0} (P : Registry → Type 0) (r : Result GoError A × State W)
    → P r.1.registry
    → Ends (λ t. P t.registry) (λ a t. P t.registry) r
Keeps-Ends P (ok a, t) held = held
Keeps-Ends P (err e, t) held = held

-- A quiet action ends quietly.
pub IsQuiet-Ends :
    {W A : Type 0} (s t : State W) (r : Result GoError A × State W)
    → Quiet s t
    → Quiet t r.1
    → Ends (Undone s) (λ a u. Quiet s u) r
IsQuiet-Ends s t (ok a, u) q r = Quiet-trans s t u q r
IsQuiet-Ends s t (err e, u) q r = Quiet→Undone s u (Quiet-trans s t u q r)
