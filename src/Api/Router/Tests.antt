-- ===== src/Api/Router/Tests.antt =====
-- Requests to the router of internal/api/router.go.
use dockerdless.Base.{◌≡◌, refl, bytes, text_beq, strip_prefix, trim_prefix, ◌↔◌, ◌⊎◌}
use dockerdless.Api.Version.{
  unversioned_path, version_from_path, before, all_version_characters, parse_api_version,
  parse_components, parse_component, split, atoi, unsigned, digits_value,
}
use dockerdless.Api.Router.{
  Handler, handled_by, not_found, not_implemented, image_inspect_handler, match_string,
  compile_route_pattern, pieces, serve_path, serve_http, mvp_route_matrix, service_route_matrix,
  get_method,
}
use dockerdless.Api.Router.Matching.{service_handles}

service_handles_example :
    ((serve_http service_route_matrix get_method (bytes "/v1.44/info") ≡ not_found)
      ⊎ ((h : Handler) × (serve_http service_route_matrix get_method (bytes "/v1.44/info")
            ≡ handled_by h)))
    × ((serve_http mvp_route_matrix get_method (bytes "/v1.44/info") ≡ not_found)
        ↔ (serve_http service_route_matrix get_method (bytes "/v1.44/info") ≡ not_found))
service_handles_example = service_handles get_method (bytes "/v1.44/info")

-- An image name may have slashes, a container identity may not.
image_with_slash :
    serve_http service_route_matrix get_method (bytes "/v1.44/images/library/nginx/json")
    ≡ handled_by image_inspect_handler
unfolding serve_http serve_path compile_route_pattern pieces match_string unversioned_path
    version_from_path before all_version_characters parse_api_version parse_components
    parse_component split atoi unsigned digits_value strip_prefix trim_prefix text_beq
image_with_slash = refl

container_with_slash :
    serve_http service_route_matrix get_method (bytes "/containers/a/b/logs") ≡ not_found
unfolding serve_http serve_path compile_route_pattern pieces match_string unversioned_path
    version_from_path strip_prefix text_beq
container_with_slash = refl

info_unbound : serve_http mvp_route_matrix get_method (bytes "/info") ≡ not_implemented
unfolding serve_http serve_path compile_route_pattern pieces match_string unversioned_path
    version_from_path strip_prefix text_beq
info_unbound = refl
