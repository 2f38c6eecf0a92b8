-- ===== src/Domain/Registry/Listing.antt =====
-- List of internal/domain/registry.go: every stored container once, in the order of the identities.
use dockerdless.Base.{
  ◌≡◌, refl, sym, none, some, List, [], ◌∷◌, map, Text, Dict, lookup, insert, delete, lookup-insert,
  lookup-delete, ok, ◌==◌, text_eq, text_beq_iff, arith, Bool-cases, Option-cases, inl, inr,
  Result-cases, subst, ◌↔◌, Listed, Ascending, Distinct, Differ, sort_by-Ascending, Listed-sort_by,
}
use dockerdless.Domain.Model.{Container, ContainerId}
use dockerdless.Domain.Registry.{
  Registry, Context, live, rename, default_image, save, remove, get, new_registry, list, Call,
  saves, renames, removes, step, run,
}

-- Each entry is stored under its identity, and no identity twice.
abbrev WellKeyed : Dict ContainerId Container → Type 0
WellKeyed [] = Unit {0}
WellKeyed ((j, c) ∷ m) = (c.id ≡ j) × (lookup j m ≡ none) × WellKeyed m

WellKeyed-lookup :
    (m : Dict ContainerId Container) (id : Text) (c : Container)
    → WellKeyed m
    → lookup id m ≡ some c
    → c.id ≡ id
unfolding lookup
WellKeyed-lookup [] id c w h = ground arith
WellKeyed-lookup ((j, d) ∷ m) id c w h =
    ground (arith, text_beq_iff j id, WellKeyed-lookup m id c w.2)

WellKeyed-insert :
    (m : Dict ContainerId Container) (id : Text) (c : Container)
    → c.id ≡ id
    → WellKeyed m
    → WellKeyed (insert id c m)
unfolding insert lookup
WellKeyed-insert [] id c e w = (e, refl, tt)
WellKeyed-insert ((j, d) ∷ m) id c e w = ground (
  arith,
  text_beq_iff j id,
  text_beq_iff id j,
  lookup-insert id j c m,
  WellKeyed-insert m id c e w.2,
)

WellKeyed-delete :
    (m : Dict ContainerId Container) (id : Text) → WellKeyed m → WellKeyed (delete id m)
unfolding delete
WellKeyed-delete [] id w = tt
WellKeyed-delete ((j, d) ∷ m) id w = ground (arith, lookup-delete id j m, WellKeyed-delete m id w.2)

save-WellKeyed :
    (r t : Registry) (ctx : Context) (c : Container)
    → WellKeyed r.by_id
    → save r ctx c ≡ ok t
    → WellKeyed t.by_id
unfolding save default_image
save-WellKeyed r t ctx c w h =
    ground (arith, WellKeyed-insert r.by_id c.id (default_image c) refl w)

rename-WellKeyed :
    (r t : Registry) (id name : Text)
    → WellKeyed r.by_id
    → rename r id name ≡ ok t
    → WellKeyed t.by_id
unfolding rename
rename-WellKeyed r t id name w h = elim (Option-cases (lookup id r.by_id)) [
  | inl e ↦ absurd (ground arith)
  | inr (c, e) ↦ ground (
    arith,
    WellKeyed-insert r.by_id id (record c { name = name }) (WellKeyed-lookup r.by_id id c w e) w,
  )
]

remove-WellKeyed :
    (r t : Registry) (ctx : Context) (id : Text)
    → WellKeyed r.by_id
    → remove r ctx id ≡ ok t
    → WellKeyed t.by_id
unfolding remove
remove-WellKeyed r t ctx id w h = ground (arith, WellKeyed-delete r.by_id id w)

step-WellKeyed : (r : Registry) (c : Call) → WellKeyed r.by_id → WellKeyed (step r c).by_id
unfolding step
step-WellKeyed r (saves ctx c) w = elim (Result-cases (save r ctx c)) [
  | inl (t, e) ↦ rw e (save-WellKeyed r t ctx c w e)
  | inr (x, e) ↦ rw e w
]
step-WellKeyed r (renames id name) w = elim (Result-cases (rename r id name)) [
  | inl (t, e) ↦ rw e (rename-WellKeyed r t id name w e)
  | inr (x, e) ↦ rw e w
]
step-WellKeyed r (removes ctx id) w = elim (Result-cases (remove r ctx id)) [
  | inl (t, e) ↦ rw e (remove-WellKeyed r t ctx id w e)
  | inr (x, e) ↦ rw e w
]

run-WellKeyed : (r : Registry) (cs : List Call) → WellKeyed r.by_id → WellKeyed (run r cs).by_id
unfolding run
run-WellKeyed r [] w = w
run-WellKeyed r (c ∷ cs) w = run-WellKeyed (step r c) cs (step-WellKeyed r c w)

abbrev records : Dict ContainerId Container → List Container
records m = map (λ e. e.1) m

records-Differ :
    (m : Dict ContainerId Container) (id : Text)
    → WellKeyed m
    → lookup id m ≡ none
    → Differ (λ d. d.id) id (records m)
unfolding lookup
records-Differ [] id w h = tt
records-Differ ((j, c) ∷ m) id w h = (ground arith, records-Differ m id w.2 (ground arith))

records-Distinct : (m : Dict ContainerId Container) → WellKeyed m → Distinct (λ c. c.id) (records m)
records-Distinct [] w = tt
records-Distinct ((j, c) ∷ m) w = (
  subst (λ k. Differ (λ d. d.id) k (records m)) (sym w.0) (records-Differ m j w.2 w.1),
  records-Distinct m w.2,
)

Listed-records :
    (m : Dict ContainerId Container) (c : Container)
    → WellKeyed m
    → Listed c (records m) ↔ (lookup c.id m ≡ some c)
unfolding lookup
Listed-records [] c w = (λ h. elim h [ ], λ h. ground arith)
Listed-records ((j, d) ∷ m) c w =
    let (into, out) = Listed-records m c w.2 in
    (
      elim [
        | inl e ↦ ground (arith, text_beq_iff j c.id)
        | inr l ↦ let found = into l in ground (arith, text_beq_iff j c.id, found)
      ],
      λ h. elim (Bool-cases (j == c.id)) [
        | inl e ↦ inl (ground arith)
        | inr e ↦ inr (out (ground arith))
      ],
    )

new_registry-WellKeyed : WellKeyed new_registry.by_id
unfolding new_registry
new_registry-WellKeyed = tt

get-stored : (r : Registry) (c : Container) → get r live c.id ≡ ok c → lookup c.id r.by_id ≡ some c
unfolding get
get-stored r c h = ground arith

-- After any calls on a new registry List is strictly ascending in the identities, and holds exactly
-- the containers that Get answers with.
pub list_lem :
    (cs : List Call)
    → let r = run new_registry cs in
      Ascending (λ c. c.id) (list r)
      × ((c : Container) → Listed c (list r) ↔ (get r live c.id ≡ ok c))
unfolding list
list_lem cs =
    let r = run new_registry cs in
    let w : WellKeyed r.by_id = run-WellKeyed new_registry cs new_registry-WellKeyed in
    (
      sort_by-Ascending (λ d. d.id) (records r.by_id) (records-Distinct r.by_id w),
      λ c.
          let (into, out) = Listed-sort_by (λ d. d.id) c (records r.by_id) in
          let (into', out') = Listed-records r.by_id c w in
          (λ h. unfold get in rw (into' (into h)) refl, λ h. out (out' (get-stored r c h))),
    )
