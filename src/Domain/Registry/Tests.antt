-- ===== src/Domain/Registry/Tests.antt =====
-- Runs of internal/domain/registry.go on a few containers.
use dockerdless.Base.{
  ◌≡◌, refl, false, List, [], ◌∷◌, Text, bytes, ok, err, ◌↔◌, lookup, insert, delete, text_beq,
  sort_by, insert_by, text_ltb, Ascending, Listed, is_empty, if◌then◌else◌, ◌==◌, trim_space,
  text_eq,
}
use dockerdless.Domain.Model.{Container, zero_container, new_container_id}
use dockerdless.Domain.Registry.{
  Registry, Call, saves, renames, removes, live, new_registry, save, rename, remove, get,
  get_by_name, list, run, step, store, context_error, name_taken, delete_name, drop_previous_name,
  default_image, container_not_found, name_conflict,
}
use dockerdless.Domain.Registry.Consistency.{IsConsistent}
use dockerdless.Domain.Registry.Methods.{run-new_registry-IsConsistent}
use dockerdless.Domain.Registry.Lookup.{get-save, rename_lem}
use dockerdless.Domain.Registry.Listing.{list_lem}

abbrev web : Container
web = record zero_container { id = bytes "a1"; name = bytes "web"; image_reference = bytes "nginx" }

abbrev db : Container
db = record zero_container {
  id = bytes "07";
  name = bytes "db";
  image_reference = bytes "postgres";
}

abbrev calls : List Call
calls = saves live web ∷ saves live db ∷ []

abbrev two : Registry
two = run new_registry calls

abbrev other_web : Container
other_web = record db { name = bytes "web" }

run-new_registry-IsConsistent_example : IsConsistent two
run-new_registry-IsConsistent_example = run-new_registry-IsConsistent calls

get_by_name_found : get_by_name two (bytes "db") ≡ ok (default_image db)
unfolding get_by_name run step save store context_error name_taken drop_previous_name default_image
    new_registry lookup insert delete text_beq
get_by_name_found = refl

save_moves :
    save two live (record db { name = bytes "store" })
    ≡ ok (store two (default_image (record db { name = bytes "store" })))
unfolding run step save store context_error name_taken drop_previous_name default_image new_registry
    lookup insert delete text_beq
save_moves = refl

get-save_example :
    let c : Container = record db { name = bytes "store" } in
    let t = store two (default_image c) in
    ((j : Text) → get t live j ≡ (if c.id == j then ok (default_image c) else get two live j))
    × (is_empty c.name ≡ false → get_by_name t c.name ≡ ok (default_image c))
get-save_example =
    get-save two (store two (default_image (record db { name = bytes "store" }))) live
      (record db { name = bytes "store" }) (run-new_registry-IsConsistent calls) save_moves

save_conflicts : save two live other_web ≡ err name_conflict
unfolding run step save store context_error name_taken drop_previous_name default_image new_registry
    lookup insert delete text_beq
save_conflicts = refl

abbrev renamed : Registry
renamed =
    run new_registry (saves live web ∷ saves live db ∷ renames (bytes "a1") (bytes "front") ∷ [])

rename_succeeds : rename two (bytes "a1") (bytes "front") ≡ ok renamed
unfolding run step save rename store context_error name_taken drop_previous_name default_image
    new_registry lookup insert delete text_beq delete_name
rename_succeeds = refl

rename_lem_example :
    (c : Container) × (get two live (bytes "a1") ≡ ok c)
    × (get renamed live (bytes "a1") ≡ ok (record c { name = bytes "front" }))
    × (get_by_name renamed (bytes "front") ≡ ok (record c { name = bytes "front" }))
    × ((c.name == bytes "front") ≡ false → get_by_name renamed c.name ≡ err container_not_found)
rename_lem_example =
    rename_lem two renamed (bytes "a1") (bytes "front") (run-new_registry-IsConsistent calls)
      rename_succeeds

list_lem_example :
    Ascending (λ (c : Container). c.id) (list two)
    × ((c : Container) → Listed c (list two) ↔ (get two live c.id ≡ ok c))
list_lem_example = list_lem calls

list_sorts : list two ≡ default_image db ∷ default_image web ∷ []
unfolding list sort_by insert_by text_ltb run step save store context_error name_taken
    drop_previous_name default_image new_registry lookup insert delete text_beq
list_sorts = refl

remove_forgets :
    get_by_name (run two (removes live (bytes "07") ∷ [])) (bytes "db") ≡ err container_not_found
unfolding get_by_name remove delete_name run step save store context_error name_taken
    drop_previous_name default_image new_registry lookup insert delete text_beq
remove_forgets = refl

-- The identity is checked without its blanks, and kept with them.
new_container_id_keeps_blanks : new_container_id (bytes " a") ≡ ok (bytes " a")
unfolding new_container_id trim_space
new_container_id_keeps_blanks = refl
