-- ===== src/App/Containers/Request.antt =====
-- What ContainerCreate of internal/app/containers.go computes from the request alone: the checks, the
-- labels, the image reference for the runtime, and the first network attachment.
use dockerdless.Base.{
  Bool, true, false, not, ◌&&◌, ◌||◌, Option, none, some, List, [], ◌∷◌, ◌++◌, Text, bytes,
  is_empty, trim_space, to_lower, text_eq, Dict, insert, Result, ok, err, ◌>>◌, refuse_if,
  if◌then◌else◌, ◌==◌, pos,
}
use dockerdless.Domain.Model.{NetworkAttachment}
use dockerdless.Domain.Registry.{Registry, get_by_name}
use dockerdless.Cni.Modes.{
  Mode, host, isolated, network, host_network_name, none_network_name, default_network_name,
  is_alphanumeric, is_name_byte,
}
use dockerdless.Failures.{GoError}
use dockerdless.App.Ports.{Ports, ContainerCreateRequest, ImageDetail, NetworkDetail, Mount}
use dockerdless.App.Service.{invalid_error, conflict_error}

abbrev pub image_digest_label : Text
image_digest_label = bytes "io.dockerdless.image-digest"

abbrev pub command_label : Text
command_label = bytes "io.dockerdless.command"

abbrev pub label_tty : Text
label_tty = bytes "io.dockerdless.tty"

abbrev pub label_mounts : Text
label_mounts = bytes "io.dockerdless.mounts"

unfoldable pub are_name_bytes : Text → Bool
are_name_bytes [] = true
are_name_bytes (c ∷ s) = is_name_byte c && are_name_bytes s

-- The pattern of a container's name.
unfoldable pub matches_container_name : Text → Bool
unfolding are_name_bytes
matches_container_name [] = false
matches_container_name (c ∷ s) = is_alphanumeric c && are_name_bytes s

abbrev pub rename_advice : Text
rename_advice =
    bytes ". You have to remove (or rename) that container to be able to reuse that name."

unfoldable pub network_name_for : Text → Text
network_name_for mode =
    let trimmed = trim_space mode in
    let token = to_lower trimmed in
    if is_empty token || (token == bytes "default" || token == default_network_name)
    then default_network_name
    else trimmed

-- The value of a mode that is not a named network, as a string.
abbrev pub mode_text : Mode → Text
mode_text host = host_network_name
mode_text isolated = none_network_name
mode_text network = bytes "network"

abbrev pub unjoined : NetworkAttachment
unjoined = record {
  network_id = [];
  name = [];
  endpoint_id = [];
  ip_address = [];
  ip_prefix_len = pos 0;
  gateway = [];
  global_ipv6_address = [];
  global_ipv6_prefix_len = pos 0;
  mac_address = [];
  aliases = [];
}

unfoldable pub network_attachment : Mode → NetworkDetail → NetworkAttachment
network_attachment network n = record unjoined { network_id = n.id; name = n.name }
network_attachment host n = record unjoined { name = mode_text host }
network_attachment isolated n = record unjoined { name = mode_text isolated }

module _ {W : Type 0} (p : Ports W) where
  unfoldable pub refuse_taken : Registry → Text → Result GoError (Unit {0})
  unfolding conflict_error
  refuse_taken r name = elim (get_by_name r name) [
    | err e ↦ ok tt
    | ok existing ↦
        if is_empty name
        then ok tt
        else err (
            conflict_error (
              bytes "Conflict. The container name \"/"
              ++ name
              ++ bytes "\" is already in use by container "
              ++ p.quote existing.id
              ++ rename_advice))
  ]

  unfoldable pub validate_container_create : Registry → Text → Text → Result GoError (Unit {0})
  unfolding matches_container_name invalid_error refuse_taken
  validate_container_create r name image = do
    refuse_if (not (is_empty name) && not (matches_container_name name)) (
        invalid_error (
          bytes "Invalid container name ("
          ++ name
          ++ bytes "), only ^[a-zA-Z0-9][a-zA-Z0-9_.-]*$ are allowed"))
    refuse_if (is_empty (trim_space image)) (invalid_error (bytes "No image specified"))
    refuse_taken r name

  -- The first reference of the list that has a normal form.
  unfoldable pub first_normalized : List Text → Option Text
  first_normalized [] = none
  first_normalized (c ∷ cs) =
      let rest = first_normalized cs in
      elim (p.normalize_reference c) [ some n ↦ some n | none ↦ rest ]

  unfoldable pub runtime_image_reference : Text → ImageDetail → Text
  unfolding first_normalized
  runtime_image_reference requested detail =
      elim (first_normalized (detail.repo_tags ++ detail.repo_digests ++ requested ∷ [])) [
        | some n ↦ n
        | none ↦ requested
      ]

  unfoldable pub mount_labels : List Mount → Dict Text Text → Dict Text Text
  mount_labels [] labels = labels
  mount_labels (m ∷ ms) labels = insert label_mounts (p.encode_mounts (m ∷ ms)) labels

  unfoldable pub build_create_labels : ContainerCreateRequest → ImageDetail → Dict Text Text
  unfolding mount_labels
  build_create_labels request detail =
      let mounted = mount_labels request.mounts request.labels in
      let labels = if request.tty then insert label_tty (bytes "true") mounted else mounted in
      insert command_label (p.encode_command request.command)
        (insert image_digest_label detail.id labels)
