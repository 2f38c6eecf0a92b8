-- ===== src/Api/Router.antt =====
-- internal/api/router.go and internal/api/routes.go: a request goes to the first route of the matrix
-- whose method is equal and whose pattern matches the path without its version. The regular
-- expressions that compileRoutePattern builds have three kinds of pieces.
pub mod Matching
mod Tests
use Prim.Native.String.{String}
use dockerdless.Base.{
  ℕ, zero, suc, Bool, true, false, not, ◌&&◌, ◌||◌, Option, none, some, List, [], ◌∷◌, Text, bytes,
  nat_beq, is_empty, strip_prefix, if◌then◌else◌, ◌==◌, text_eq, map,
}
use dockerdless.Api.Version.{unversioned_path}

-- A byte for itself, `.+` and `[^/]+`.
pub data Piece : Type 0 where
  literal : ℕ → Piece
  any_text any_segment : Piece

-- QuoteMeta and the two replacements: the text that a placeholder takes is skipped byte by byte.
unfoldable pub pieces : ℕ → Text → List Piece
pieces skip [] = []
pieces (suc skip) (c ∷ path) = pieces skip path
pieces zero (c ∷ path) =
    let after_literal = pieces 0 path in
    let after_name = pieces 5 path in
    let after_id = pieces 3 path in
    elim (strip_prefix (bytes "{name}") (c ∷ path)) [
      | some rest ↦ any_text ∷ after_name
      | none ↦ elim (strip_prefix (bytes "{id}") (c ∷ path)) [
        | some rest ↦ any_segment ∷ after_id
        | none ↦ literal c ∷ after_literal
      ]
    ]

unfoldable pub compile_route_pattern : Text → List Piece
unfolding pieces
compile_route_pattern path = pieces 0 path

-- MatchString of "^" pattern "$".
unfoldable pub match_string : List Piece → Text → Bool
match_string [] [] = true
match_string [] (d ∷ s) = false
match_string (p ∷ ps) [] = false
match_string (literal c ∷ ps) (d ∷ s) = nat_beq c d && match_string ps s
match_string (any_text ∷ ps) (d ∷ s) =
    not (nat_beq d b'\n') && (match_string ps s || match_string (any_text ∷ ps) s)
match_string (any_segment ∷ ps) (d ∷ s) =
    not (nat_beq d b'/') && (match_string ps s || match_string (any_segment ∷ ps) s)

pub data Handler : Type 0 where
  ping_handler version_handler info_handler image_inspect_handler image_create_handler : Handler
  image_list_handler image_remove_handler build_handler container_create_handler : Handler
  container_list_handler container_inspect_handler container_start_handler : Handler
  container_stop_handler container_logs_handler exec_create_handler : Handler
  container_remove_handler network_list_handler network_inspect_handler : Handler
  network_create_handler network_connect_handler network_remove_handler : Handler
  exec_start_handler exec_inspect_handler : Handler

-- `handler` is nil where the matrix has none.
pub record RouteCapability : Type 0 where
  pub method : Text
  pub path : Text
  pub supported : Bool
  pub handler : Option Handler

abbrev pub get_method : Text
get_method = bytes "GET"

abbrev pub post_method : Text
post_method = bytes "POST"

abbrev pub head_method : Text
head_method = bytes "HEAD"

abbrev pub delete_method : Text
delete_method = bytes "DELETE"

abbrev pub route : Text → String → Handler → RouteCapability
route method path handler = record {
  method = method;
  path = bytes path;
  supported = true;
  handler = some handler;
}

abbrev pub unbound : Text → String → RouteCapability
unbound method path = record {
  method = method;
  path = bytes path;
  supported = false;
  handler = none;
}

abbrev pub mvp_route_matrix : List RouteCapability
mvp_route_matrix =
    route get_method "/_ping" ping_handler
    ∷ route head_method "/_ping" ping_handler
    ∷ route get_method "/version" version_handler
    ∷ unbound get_method "/info"
    ∷ unbound get_method "/images/{name}/json"
    ∷ unbound post_method "/images/create"
    ∷ unbound get_method "/images/json"
    ∷ unbound delete_method "/images/{name}"
    ∷ unbound post_method "/build"
    ∷ unbound post_method "/containers/create"
    ∷ unbound get_method "/containers/json"
    ∷ unbound get_method "/containers/{id}/json"
    ∷ unbound post_method "/containers/{id}/start"
    ∷ unbound post_method "/containers/{id}/stop"
    ∷ unbound get_method "/containers/{id}/logs"
    ∷ unbound post_method "/containers/{id}/exec"
    ∷ unbound delete_method "/containers/{id}"
    ∷ unbound get_method "/networks"
    ∷ unbound get_method "/networks/{id}"
    ∷ unbound post_method "/networks/create"
    ∷ unbound post_method "/networks/{id}/connect"
    ∷ unbound delete_method "/networks/{id}"
    ∷ unbound post_method "/exec/{id}/start"
    ∷ unbound get_method "/exec/{id}/json"
    ∷ []

abbrev pub service_route_matrix : List RouteCapability
service_route_matrix =
    route get_method "/_ping" ping_handler
    ∷ route head_method "/_ping" ping_handler
    ∷ route get_method "/version" version_handler
    ∷ route get_method "/info" info_handler
    ∷ route get_method "/images/{name}/json" image_inspect_handler
    ∷ route post_method "/images/create" image_create_handler
    ∷ route get_method "/images/json" image_list_handler
    ∷ route delete_method "/images/{name}" image_remove_handler
    ∷ route post_method "/build" build_handler
    ∷ route post_method "/containers/create" container_create_handler
    ∷ route get_method "/containers/json" container_list_handler
    ∷ route get_method "/containers/{id}/json" container_inspect_handler
    ∷ route post_method "/containers/{id}/start" container_start_handler
    ∷ route post_method "/containers/{id}/stop" container_stop_handler
    ∷ route get_method "/containers/{id}/logs" container_logs_handler
    ∷ route post_method "/containers/{id}/exec" exec_create_handler
    ∷ route delete_method "/containers/{id}" container_remove_handler
    ∷ route get_method "/networks" network_list_handler
    ∷ route get_method "/networks/{id}" network_inspect_handler
    ∷ route post_method "/networks/create" network_create_handler
    ∷ route post_method "/networks/{id}/connect" network_connect_handler
    ∷ route delete_method "/networks/{id}" network_remove_handler
    ∷ route post_method "/exec/{id}/start" exec_start_handler
    ∷ route get_method "/exec/{id}/json" exec_inspect_handler
    ∷ []

-- What ServeHTTP does with a request.
pub data Served : Type 0 where
  handled_by : Handler → Served
  not_implemented not_found : Served

-- The loop over the routes, for the path without its version.
unfoldable pub serve_path : List RouteCapability → Text → Text → Served
unfolding compile_route_pattern match_string
serve_path [] method path = not_found
serve_path (r ∷ rs) method path =
    let rest = serve_path rs method path in
    if not (r.method == method) || not (match_string (compile_route_pattern r.path) path)
    then rest
    else if not r.supported
    then not_implemented
    else elim r.handler [ none ↦ not_implemented | some h ↦ handled_by h ]

unfoldable pub serve_http : List RouteCapability → Text → Text → Served
unfolding serve_path
serve_http matrix method path = serve_path matrix method (unversioned_path path)
