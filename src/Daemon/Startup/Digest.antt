-- ===== src/Daemon/Startup/Digest.antt =====
-- digestFromReference of cmd/dockerdless/reconciliation.go.
use dockerdless.Base.{ℕ, ◌≡◌, ◌≢◌, refl, none, some, [], ◌∷◌, ◌++◌, Text, arith, All}
use dockerdless.Daemon.Startup.{after_last, digest_from_reference}

after_last-missing : (c : ℕ) (s : Text) → All (λ d. d ≢ c) s → after_last c s ≡ none
unfolding after_last
after_last-missing c [] h = refl
after_last-missing c (d ∷ s) h = ground (arith, after_last-missing c s h.1, h.0)

after_last-append : (c : ℕ) (s t : Text) → All (λ d. d ≢ c) t → after_last c (s ++ c ∷ t) ≡ some t
unfolding after_last
after_last-append c [] t h = ground (arith, after_last-missing c t h)
after_last-append c (d ∷ s) t h = ground (arith, after_last-append c s t h)

-- The digest of a reference is what stands behind its last "@", and it is empty if there is none.
pub digest_from_reference_lem :
    (name digest : Text)
    → All (λ d. d ≢ b'@') digest
    → (digest_from_reference (name ++ b'@' ∷ digest) ≡ digest)
      × (All (λ d. d ≢ b'@') name → digest_from_reference name ≡ [])
unfolding digest_from_reference
digest_from_reference_lem name digest h = (
  ground (arith, after_last-append b'@' name digest h),
  λ k. ground (arith, after_last-missing b'@' name k),
)
