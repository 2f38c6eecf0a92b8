-- ===== src/Domain/Registry/Consistency.antt =====
-- The two indexes of the registry agree, whatever operations are called (internal/domain/registry.go).
use dockerdless.Base.{
  ◌≡◌, refl, Bool, false, not, ◌&&◌, none, some, [], Text, is_empty, lookup, lookup-insert,
  lookup-delete, if◌then◌else◌, ◌==◌, text_eq, text_beq_iff, arith, Bool-cases, Option-cases, inl,
  inr,
}
use dockerdless.Domain.Model.{Container, ContainerId}
use dockerdless.Domain.Registry.{Registry, name_taken, drop_previous_name, store}

-- What a reader of either index may rely on.
pub record IsConsistent (r : Registry) : Type 0 where
  pub keyed : (id : Text) (c : Container) → lookup id r.by_id ≡ some c → c.id ≡ id
  pub named :
      (n id : Text)
      → lookup n r.by_name ≡ some id
      → (c : Container) × (lookup id r.by_id ≡ some c) × (c.name ≡ n)
  pub indexed :
      (id : Text) (c : Container)
      → lookup id r.by_id ≡ some c
      → is_empty c.name ≡ false
      → lookup c.name r.by_name ≡ some id
  pub unnamed : lookup [] r.by_name ≡ none

-- The container answers to the name.
abbrev pub is_named : Container → Text → Bool
is_named c n = not (is_empty c.name) && c.name == n

-- The record stored under the identity answers to the name.
abbrev pub owned : Registry → ContainerId → Text → Bool
owned r id n = elim (lookup id r.by_id) [ none ↦ false | some p ↦ is_named p n ]

-- The registry `t` is `r` with `c` put in the place of the record of the same identity.
pub record Places (r t : Registry) (c : Container) : Type 0 where
  pub ids : (j : Text) → lookup j t.by_id ≡ (if c.id == j then some c else lookup j r.by_id)
  pub names :
      (n : Text)
      → lookup n t.by_name ≡ (
          if is_named c n then some c.id else (if owned r c.id n then none else lookup n r.by_name))
  pub free : (not (is_empty c.name) && name_taken r c.name c.id) ≡ false

drop_previous_lookup :
    (r : Registry) (c : Container) (n : Text)
    → is_named c n ≡ false
    → lookup n (drop_previous_name r c) ≡ (if owned r c.id n then none else lookup n r.by_name)
unfolding drop_previous_name
drop_previous_lookup r c n h = elim (Option-cases (lookup c.id r.by_id)) [
  | inl e ↦ ground arith
  | inr (p, e) ↦ ground (
    arith,
    text_beq_iff p.name c.name,
    text_beq_iff c.name n,
    text_beq_iff p.name n,
    lookup-delete p.name n r.by_name,
  )
]

pub store-Places :
    (r : Registry) (c : Container)
    → (not (is_empty c.name) && name_taken r c.name c.id) ≡ false
    → Places r (store r c) c
unfolding store
store-Places r c h = record {
  ids = λ j. lookup-insert c.id j c r.by_id;
  names = λ n. elim (Bool-cases (is_named c n)) [
    | inl e ↦ ground (arith, lookup-insert c.name n c.id (drop_previous_name r c))
    | inr e ↦
        ground (
          arith,
          lookup-insert c.name n c.id (drop_previous_name r c),
          drop_previous_lookup r c n e,
        )
  ];
  free = h;
}

module _ (r t : Registry) (c : Container) (p : Places r t c) (v : IsConsistent r) where
  keyed-Places : (id : Text) (d : Container) → lookup id t.by_id ≡ some d → d.id ≡ id
  keyed-Places id d h = ground (arith, text_beq_iff c.id id, p.ids id, v.keyed id d)

  named-Places :
      (n id : Text)
      → lookup n t.by_name ≡ some id
      → (d : Container) × (lookup id t.by_id ≡ some d) × (d.name ≡ n)
  named-Places n id h = elim (Bool-cases (is_named c n)) [
    | inl e ↦ (
      c,
      ground (arith, text_beq_iff c.id id, p.ids id, p.names n),
      ground (arith, text_beq_iff c.name n),
    )
    | inr e ↦
        let old : lookup n r.by_name ≡ some id = ground (arith, p.names n) in
        let (d, at_id, at_name) = v.named n id old in
        (
          d,
          ground (
            arith,
            text_beq_iff c.id id,
            text_beq_iff d.name n,
            p.ids id,
            p.names n,
            v.unnamed,
            v.keyed id d,
          ),
          at_name,
        )
  ]

  -- A name that another record holds is not the new record's, and was not its predecessor's.
  not_named_other :
      (id : Text) (d : Container)
      → (c.id == id) ≡ false
      → lookup d.name r.by_name ≡ some id
      → is_named c d.name ≡ false
  unfolding name_taken
  not_named_other id d e mine =
      ground (arith, p.free, text_beq_iff c.name d.name, text_beq_iff c.id id, text_beq_iff id c.id)

  not_owned_other :
      (id : Text) (d : Container)
      → (c.id == id) ≡ false
      → is_empty d.name ≡ false
      → lookup d.name r.by_name ≡ some id
      → owned r c.id d.name ≡ false
  not_owned_other id d e n mine = elim (Option-cases (lookup c.id r.by_id)) [
    | inl q ↦ rw (q, owned) refl
    | inr (q, at_id) ↦
        ground
          (arith, at_id, v.indexed c.id q at_id, text_beq_iff q.name d.name, text_beq_iff c.id id)
  ]

  indexed-Places :
      (id : Text) (d : Container)
      → lookup id t.by_id ≡ some d
      → is_empty d.name ≡ false
      → lookup d.name t.by_name ≡ some id
  indexed-Places id d h n = elim (Bool-cases (c.id == id)) [
    | inl e ↦
        ground (arith, text_beq_iff c.id id, text_beq_iff c.name d.name, p.ids id, p.names d.name)
    | inr e ↦
        let old : lookup id r.by_id ≡ some d = ground (arith, p.ids id) in
        let mine : lookup d.name r.by_name ≡ some id = v.indexed id d old n in
        rw (p.names d.name, not_named_other id d e mine, not_owned_other id d e n mine) mine
  ]

  -- The resulting indexes agree.
  pub Places-IsConsistent : IsConsistent t
  Places-IsConsistent = record {
    keyed = keyed-Places;
    named = named-Places;
    indexed = indexed-Places;
    unnamed = ground (arith, p.names [], text_beq_iff c.name [], v.unnamed);
  }
