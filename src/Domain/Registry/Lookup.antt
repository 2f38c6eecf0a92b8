-- ===== src/Domain/Registry/Lookup.antt =====
-- What a caller of the registry sees: lookups after each method, and when a method is refused
-- (internal/domain/registry.go).
use dockerdless.Base.{
  ◌≡◌, refl, true, false, some, [], ◌∷◌, Text, is_empty, lookup, ok, err, if◌then◌else◌, ◌==◌,
  text_eq, text_beq_iff, arith, Option-cases, inl, inr, ◌∙◌, ap, ◌↔◌,
}
use dockerdless.Domain.Model.{Container, ContainerId}
use dockerdless.Domain.Registry.{
  Registry, Context, live, name_taken, rename, default_image, save, get, get_by_name,
  container_not_found,
}
use dockerdless.Domain.Registry.Consistency.{IsConsistent}
use dockerdless.Domain.Registry.Methods.{save-Places, rename-Places}

-- The registry stores exactly this record under its identity.
abbrev pub Stores : Registry → Container → Type 0
Stores r c = lookup c.id r.by_id ≡ some c

-- Another stored container has the name.
abbrev pub HeldByOther : Registry → Text → ContainerId → Type 0
HeldByOther r name id =
    (d : Container) × Stores r d
    × (d.name ≡ name)
    × (is_empty name ≡ false)
    × ((d.id == id) ≡ false)

pub name_taken_iff :
    (r : Registry) (name id : Text)
    → IsConsistent r
    → (name_taken r name id ≡ true) ↔ HeldByOther r name id
unfolding name_taken
name_taken_iff r name id v = (to, from)
  where
    to : name_taken r name id ≡ true → HeldByOther r name id
    to h = elim (Option-cases (lookup name r.by_name)) [
      | inl e ↦ absurd (ground arith)
      | inr (owner, e) ↦
          let (d, stored, called) = v.named name owner e in
          let mine = v.keyed owner d stored in
          (d, ap (λ j. lookup j r.by_id) mine ∙ stored, called, not_empty name e, ground arith)
    ]
      where
        not_empty : (n : Text) {o : Text} → lookup n r.by_name ≡ some o → is_empty n ≡ false
        not_empty [] e = ground (arith, v.unnamed)
        not_empty (b ∷ n) e = refl

    from : HeldByOther r name id → name_taken r name id ≡ true
    from (d, stored, called, some_name, others) = ground (arith, v.indexed d.id d stored)

-- GetByName answers with a container exactly when the name is not empty and the registry stores
-- that container under the name.
pub get_by_name_iff :
    (r : Registry) (name : Text) (c : Container)
    → IsConsistent r
    → (get_by_name r name ≡ ok c) ↔ (Stores r c × (c.name ≡ name) × (is_empty name ≡ false))
unfolding get_by_name
get_by_name_iff r name c v = (to, from)
  where
    to : get_by_name r name ≡ ok c → Stores r c × (c.name ≡ name) × (is_empty name ≡ false)
    to h = elim (Option-cases (lookup name r.by_name)) [
      | inl e ↦ absurd (ground arith)
      | inr (id, e) ↦
          let (d, stored, called) = v.named name id e in
          let found : d ≡ c = ground arith in
          let mine = v.keyed id d stored in (ground arith, ground arith, not_empty name e)
    ]
      where
        not_empty : (n : Text) {o : Text} → lookup n r.by_name ≡ some o → is_empty n ≡ false
        not_empty [] e = ground (arith, v.unnamed)
        not_empty (b ∷ n) e = refl

    from : Stores r c × (c.name ≡ name) × (is_empty name ≡ false) → get_by_name r name ≡ ok c
    from (stored, called, some_name) = ground (arith, v.indexed c.id c stored)

-- A successful Save is read back: its identity now answers with the record, its image defaults
-- filled in, every other identity answers as before, and so does the record's name if it has one.
pub get-save :
    (r t : Registry) (ctx : Context) (c : Container)
    → IsConsistent r
    → save r ctx c ≡ ok t
    → ((j : Text) → get t live j ≡ (if c.id == j then ok (default_image c) else get r live j))
      × (is_empty c.name ≡ false → get_by_name t c.name ≡ ok (default_image c))
unfolding get get_by_name default_image
get-save r t ctx c v h =
    let p = save-Places r t ctx c h in
    (
      λ j. ground (arith, p.ids j),
      λ n.
          ground
            (arith, p.names c.name, p.ids c.id, text_beq_iff c.name c.name, text_beq_iff c.id c.id),
    )

rename_name_filled :
    (r t : Registry) (id name : Text) → rename r id name ≡ ok t → is_empty name ≡ false
unfolding rename
rename_name_filled r t id name h = ground arith

-- A successful Rename changes the name alone: the identity answers with the same record under the
-- new name, so does the new name, and the old name, if it is another one, answers with no container.
pub rename_lem :
    (r t : Registry) (id name : Text)
    → IsConsistent r
    → rename r id name ≡ ok t
    → (c : Container) × (get r live id ≡ ok c)
      × (get t live id ≡ ok (record c { name = name }))
      × (get_by_name t name ≡ ok (record c { name = name }))
      × ((c.name == name) ≡ false → get_by_name t c.name ≡ err container_not_found)
rename_lem r t id name v h =
    let (c, stored, p) = rename-Places r t id name v h in
    let same : c.id ≡ id = v.keyed id c stored in
    let filled : is_empty name ≡ false = rename_name_filled r t id name h in
    (
      c,
      unfold get in ground arith,
      unfold get in ground (arith, p.ids id, text_beq_iff c.id id),
      unfold get_by_name in
          ground (arith, p.names name, p.ids c.id, text_beq_iff name name, text_beq_iff c.id c.id),
      unfold get_by_name in
          λ other. ground (
            arith,
            p.names c.name,
            text_beq_iff c.name name,
            text_beq_iff name c.name,
            text_beq_iff c.name c.name,
            ap (λ j. lookup j r.by_id) same,
            v.unnamed,
          ),
    )
