-- ===== src/Domain/Registry.antt =====
-- internal/domain/registry.go: the volatile index of containers by identity and by name. Each method
-- holds the registry's lock for its whole access to the maps, so it is one step on the state. The
-- deep copies of cloneContainer are left out: a value of the model has no alias.
pub mod Consistency
pub mod Methods
pub mod Lookup
pub mod Listing
mod Tests
use dockerdless.Base.{
  ◌≡◌, refl, Bool, true, false, not, ◌&&◌, Option, none, some, List, [], ◌∷◌, map, Text, is_empty,
  Dict, lookup, insert, delete, Result, ok, err, ◌>>=◌, ◌>>◌, refuse_if, or_fail, if◌then◌else◌,
  ◌==◌, text_eq, sort_by, text_beq,
}
use dockerdless.Domain.Model.{Container, ContainerId, zero_container}

pub data ContextError : Type 0 where
  canceled deadline_exceeded : ContextError

-- A context argument: nil, still open, or done with an error.
pub data Context : Type 0 where
  absent live : Context
  done : ContextError → Context

pub data RegistryError : Type 0 where
  container_not_found name_conflict empty_name empty_identity nil_context : RegistryError
  context_done : ContextError → RegistryError

pub record Registry : Type 0 where
  pub by_id : Dict ContainerId Container
  pub by_name : Dict Text ContainerId

unfoldable pub new_registry : Registry
new_registry = record { by_id = []; by_name = [] }

unfoldable pub context_error : Context → Result RegistryError (Unit {0})
context_error absent = err nil_context
context_error live = ok tt
context_error (done e) = err (context_done e)

unfoldable pub get : Registry → Context → ContainerId → Result RegistryError Container
unfolding context_error
get r ctx id = do context_error ctx; or_fail (lookup id r.by_id) container_not_found

unfoldable pub get_by_name : Registry → Text → Result RegistryError Container
get_by_name r name = do
  id ← or_fail (lookup name r.by_name) container_not_found
  ok (elim (lookup id r.by_id) [ none ↦ zero_container | some c ↦ c ])

unfoldable pub list : Registry → List Container
list r = sort_by (λ c. c.id) (map (λ e. e.1) r.by_id)

-- Another container owns the name.
unfoldable pub name_taken : Registry → Text → ContainerId → Bool
name_taken r name id = elim (lookup name r.by_name) [
  | none ↦ false
  | some owner ↦ not (owner == id)
]

unfoldable pub delete_name : Text → Dict Text ContainerId → Dict Text ContainerId
delete_name name m = if is_empty name then m else delete name m

unfoldable pub rename : Registry → ContainerId → Text → Result RegistryError Registry
unfolding name_taken delete_name
rename r id name = do
  refuse_if (is_empty name) empty_name
  container ← or_fail (lookup id r.by_id) container_not_found
  refuse_if (name_taken r name id) name_conflict
  ok (record {
    by_id = insert id (record container { name = name }) r.by_id;
    by_name = insert name id (delete_name container.name r.by_name);
  })

-- The image reference and the specification's image stand in for one another.
unfoldable pub default_image : Container → Container
default_image c =
    let reference = if is_empty c.image_reference then c.spec.image else c.image_reference in
    record c {
      image_reference = reference;
      spec = record (c.spec) { image = if is_empty c.spec.image then reference else c.spec.image };
    }

-- The name that the previous record of the same identity held, if it is another one.
unfoldable pub drop_previous_name : Registry → Container → Dict Text ContainerId
unfolding delete_name
drop_previous_name r c = elim (lookup c.id r.by_id) [
  | none ↦ r.by_name
  | some previous ↦
      if not (is_empty previous.name) && not (previous.name == c.name)
      then delete previous.name r.by_name
      else r.by_name
]

unfoldable pub store : Registry → Container → Registry
unfolding drop_previous_name
store r c = record {
  by_id = insert c.id c r.by_id;
  by_name =
      if is_empty c.name
      then drop_previous_name r c
      else insert c.name c.id (drop_previous_name r c);
}

unfoldable pub save : Registry → Context → Container → Result RegistryError Registry
unfolding context_error name_taken store default_image
save r ctx container = do
  context_error ctx
  refuse_if (is_empty container.id) empty_identity
  refuse_if (not (is_empty container.name) && name_taken r container.name container.id)
      name_conflict
  ok (store r (default_image container))

unfoldable pub remove : Registry → Context → ContainerId → Result RegistryError Registry
unfolding context_error delete_name
remove r ctx id = do
  context_error ctx
  container ← or_fail (lookup id r.by_id) container_not_found
  ok (record { by_id = delete id r.by_id; by_name = delete_name container.name r.by_name })

-- A call of a method that changes the registry.
pub data Call : Type 0 where
  saves : Context → Container → Call
  renames : ContainerId → Text → Call
  removes : Context → ContainerId → Call

-- A method that fails leaves the registry as it was.
abbrev pub after : Registry → Result RegistryError Registry → Registry
after r (ok t) = t
after r (err e) = r

unfoldable pub step : Registry → Call → Registry
step r (saves ctx c) = after r (save r ctx c)
step r (renames id name) = after r (rename r id name)
step r (removes ctx id) = after r (remove r ctx id)

unfoldable pub run : Registry → List Call → Registry
run r [] = r
run r (c ∷ cs) = run (step r c) cs
