-- ===== src/Api/Router/Matching.antt =====
-- What the router of internal/api/router.go answers, and what its patterns match.
use dockerdless.Base.{
  ℕ, ◌≡◌, ◌≢◌, refl, true, false, not, ◌||◌, some, List, [], ◌∷◌, ◌++◌, Text, is_empty, ◌==◌,
  text_eq, arith, ◌↔◌, ◌⊎◌, inl, inr, Bool-cases, All, ap,
}
use dockerdless.Api.Version.{unversioned_path}
use dockerdless.Api.Router.{
  Piece, literal, any_text, any_segment, match_string, compile_route_pattern, RouteCapability,
  Handler, handled_by, not_found, serve_path, serve_http, mvp_route_matrix, service_route_matrix,
}

abbrev pub Chars : ℕ → Text → Type 0
Chars c u = (is_empty u ≡ false) × All (λ d. d ≢ c) u

-- The texts of a pattern.
abbrev pub Denotes : List Piece → Text → Type 0
Denotes [] s = s ≡ []
Denotes (literal c ∷ ps) s = (t : Text) × (s ≡ c ∷ t) × Denotes ps t
Denotes (any_text ∷ ps) s = (u t : Text) × (s ≡ u ++ t) × Chars b'\n' u × Denotes ps t
Denotes (any_segment ∷ ps) s = (u t : Text) × (s ≡ u ++ t) × Chars b'/' u × Denotes ps t

-- The two matrices have the same methods and paths, in the same order.
abbrev SameRoutes : List RouteCapability → List RouteCapability → Type 0
SameRoutes [] [] = Unit {0}
SameRoutes [] (q ∷ qs) = ⊥
SameRoutes (r ∷ rs) [] = ⊥
SameRoutes (r ∷ rs) (q ∷ qs) = (r.method ≡ q.method) × (r.path ≡ q.path) × SameRoutes rs qs

-- Every route has its handler.
abbrev IsBound : RouteCapability → Type 0
IsBound r = (r.supported ≡ true) × (h : Handler) × (r.handler ≡ some h)

SameRoutes-not_found :
    (rs qs : List RouteCapability) (method path : Text)
    → SameRoutes rs qs
    → (serve_path rs method path ≡ not_found) ↔ (serve_path qs method path ≡ not_found)
unfolding serve_path
SameRoutes-not_found [] [] method path s = (λ h. refl, λ h. refl)
SameRoutes-not_found [] (q ∷ qs) method path s = absurd s
SameRoutes-not_found (r ∷ rs) [] method path s = absurd s
SameRoutes-not_found (r ∷ rs) (q ∷ qs) method path s =
    let rest = SameRoutes-not_found rs qs method path s.2 in
    let m : (r.method == method) ≡ (q.method == method) = ap (λ x. x == method) s.0 in
    let p : match_string (compile_route_pattern r.path) path
        ≡ match_string (compile_route_pattern q.path) path =
      ap (λ x. match_string (compile_route_pattern x) path) s.1 in
    (λ h. ground (arith, m, p, rest, h), λ h. ground (arith, m, p, rest, h))

bound-served :
    (rs : List RouteCapability) (method path : Text)
    → All IsBound rs
    → (serve_path rs method path ≡ not_found)
      ⊎ ((h : Handler) × (serve_path rs method path ≡ handled_by h))
unfolding serve_path
bound-served [] method path b = inl refl
bound-served (r ∷ rs) method path b =
    let h = b.0.1 in
    let bound = b.0.2 in
    elim (Bool-cases
      (not (r.method == method) || not (match_string (compile_route_pattern r.path) path))) [
        | inl e ↦ elim (bound-served rs method path b.1) [
          | inl missing ↦ inl (ground (arith, e, missing))
          | inr (g, handled) ↦ inr (g, ground (arith, e, handled))
        ]
        | inr e ↦ inr (h, ground (arith, e, b.0.0, bound))
      ]

matrices-SameRoutes : SameRoutes mvp_route_matrix service_route_matrix
matrices-SameRoutes = (
  refl,
  refl,
  (
    refl,
    refl,
    (
      refl,
      refl,
      (
        refl,
        refl,
        (
          refl,
          refl,
          (
            refl,
            refl,
            (
              refl,
              refl,
              (
                refl,
                refl,
                (
                  refl,
                  refl,
                  (
                    refl,
                    refl,
                    (
                      refl,
                      refl,
                      (
                        refl,
                        refl,
                        (
                          refl,
                          refl,
                          (
                            refl,
                            refl,
                            (
                              refl,
                              refl,
                              (
                                refl,
                                refl,
                                (
                                  refl,
                                  refl,
                                  (
                                    refl,
                                    refl,
                                    (
                                      refl,
                                      refl,
                                      (
                                        refl,
                                        refl,
                                        (refl, refl, (refl, refl, (refl, refl, (refl, refl, tt)))),
                                      ),
                                    ),
                                  ),
                                ),
                              ),
                            ),
                          ),
                        ),
                      ),
                    ),
                  ),
                ),
              ),
            ),
          ),
        ),
      ),
    ),
  ),
)

service_matrix-IsBound : All IsBound service_route_matrix
service_matrix-IsBound = (
  (refl, _, refl),
  (
    (refl, _, refl),
    (
      (refl, _, refl),
      (
        (refl, _, refl),
        (
          (refl, _, refl),
          (
            (refl, _, refl),
            (
              (refl, _, refl),
              (
                (refl, _, refl),
                (
                  (refl, _, refl),
                  (
                    (refl, _, refl),
                    (
                      (refl, _, refl),
                      (
                        (refl, _, refl),
                        (
                          (refl, _, refl),
                          (
                            (refl, _, refl),
                            (
                              (refl, _, refl),
                              (
                                (refl, _, refl),
                                (
                                  (refl, _, refl),
                                  (
                                    (refl, _, refl),
                                    (
                                      (refl, _, refl),
                                      (
                                        (refl, _, refl),
                                        (
                                          (refl, _, refl),
                                          (
                                            (refl, _, refl),
                                            ((refl, _, refl), ((refl, _, refl), tt)),
                                          ),
                                        ),
                                      ),
                                    ),
                                  ),
                                ),
                              ),
                            ),
                          ),
                        ),
                      ),
                    ),
                  ),
                ),
              ),
            ),
          ),
        ),
      ),
    ),
  ),
)

-- With a service every recognized request is handled: the answer is a handler's or a 404, never a
-- 501. Without one the same requests are recognized: exactly those that a service's router answers
-- with a 404 are answered with a 404.
pub service_handles :
    (method path : Text)
    → ((serve_http service_route_matrix method path ≡ not_found)
        ⊎ ((h : Handler) × (serve_http service_route_matrix method path ≡ handled_by h)))
      × ((serve_http mvp_route_matrix method path ≡ not_found)
          ↔ (serve_http service_route_matrix method path ≡ not_found))
unfolding serve_http
service_handles method path = (
  bound-served service_route_matrix method (unversioned_path path) service_matrix-IsBound,
  SameRoutes-not_found mvp_route_matrix service_route_matrix method (unversioned_path path)
      matrices-SameRoutes,
)
