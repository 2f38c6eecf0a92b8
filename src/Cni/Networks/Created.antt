-- ===== src/Cni/Networks/Created.antt =====
-- CreateNetwork of internal/adapters/cni/adapter.go on the directory of networks: what a successful call has
-- written, and what the names resolve to afterwards.
use dockerdless.Base.{
  ◌≡◌, sym, ap, ◌∙◌, subst, arith, Bool, true, false, Option, none, Text, trim_space,
  trim_space_idem, text_eq, lookup, insert, Dict, Result, ok, >>=-eq_ok, refuse_if,
}
use dockerdless.Cni.Modes.{
  validate_network_name, is_reserved_network_name, matches_name_pattern, NetworkError,
}
use dockerdless.Cni.Config.{
  Files, FileContent, document, NetworkConfigFile, network_id_for_name, bridge_config,
  build_bridge_network_config,
}
use dockerdless.Cni.Networks.{
  Host, CreateNetworkRequest, network_file_path, allocate_subnet, check_request, make_conf_dir,
  create_network, write_file_exclusive,
}
use dockerdless.Cni.Networks.Names.{IsProper}

validate_ok : (name : Text) → validate_network_name name ≡ ok tt → matches_name_pattern name ≡ true
unfolding validate_network_name
validate_ok name e = ground arith

build_ok :
    (sha : Text → Text) (name subnet gateway dir : Text) (labels : Dict Text Text)
    (raw : NetworkConfigFile)
    → build_bridge_network_config sha name subnet gateway dir labels ≡ ok raw
    → raw ≡ bridge_config sha name subnet gateway dir labels
unfolding build_bridge_network_config
build_ok sha name subnet gateway dir labels raw e = ground arith

write_ok :
    (write_error : Text → Option Text) (files files' : Files) (name path : Text) (c : FileContent)
    → write_file_exclusive write_error files name path c ≡ ok files'
    → (lookup path files ≡ none) × (files' ≡ insert path c files)
unfolding write_file_exclusive
write_ok write_error files files' name path c e = ground arith

refuse_ok : (b : Bool) (e : NetworkError) → refuse_if b e ≡ ok tt → b ≡ false
refuse_ok b e h = ground arith

-- What a successful CreateNetwork has done.
pub record Creates (h : Host) (files : Files) (req : CreateNetworkRequest) (id : Text)
    (files' : Files) : Type 0 where
  pub name : Text
  pub subnet : Text
  pub gateway : Text
  pub trimmed : trim_space req.name ≡ name
  pub proper : IsProper name
  pub allocated : allocate_subnet h none files req.subnet req.gateway ≡ ok (subnet, gateway)
  pub fresh : lookup (network_file_path h.conf_dir name) files ≡ none
  pub named : id ≡ network_id_for_name h.sha256_hex name
  pub written :
      files'
      ≡ insert
          (network_file_path h.conf_dir name)
          (document (bridge_config h.sha256_hex name subnet gateway h.ipam_data_dir req.labels))
          files

module _ {a b : Text} {f g : Files} where
  id_of : ◌≡◌ {A = Result NetworkError (Text × Files)} (ok (a, f)) (ok (b, g)) → b ≡ a
  id_of e = cc e

  files_of : ◌≡◌ {A = Result NetworkError (Text × Files)} (ok (a, f)) (ok (b, g)) → f ≡ g
  files_of e = cc e

check_request_ok :
    (h : Host) (req : CreateNetworkRequest) (name : Text)
    → check_request h none req ≡ ok name
    → (trim_space req.name ≡ name) × IsProper name
unfolding check_request
check_request_ok h req name e =
    let i : trim_space req.name ≡ name = ground arith in
    let valid : validate_network_name (trim_space req.name) ≡ ok tt = ground arith in
    let free : is_reserved_network_name (trim_space req.name) ≡ false = ground arith in
    (
      i,
      subst IsProper i (record {
        trimmed = trim_space_idem req.name;
        pattern = validate_ok (trim_space req.name) valid;
        free = free;
      }),
    )

module _ (h : Host) (files : Files) (req : CreateNetworkRequest) (id : Text) (files' : Files) where
  pub create_network-Creates :
      create_network h none files req ≡ ok (id, files') → Creates h files req id files'
  unfolding create_network
  create_network-Creates e =
      let (name, checked, e1) = >>=-eq_ok (check_request h none req) _ e in
      let (u, made, e2) = >>=-eq_ok (make_conf_dir h none) _ e1 in
      let (addresses, allocated, e3) =
        >>=-eq_ok (allocate_subnet h none files req.subnet req.gateway) _ e2 in
      let (raw, built, e4) =
        >>=-eq_ok
          (build_bridge_network_config h.sha256_hex name addresses.0 addresses.1 h.ipam_data_dir
            req.labels)
          _ e3 in
      let (files'', stored, e5) =
        >>=-eq_ok
          (write_file_exclusive h.write_error files name (network_file_path h.conf_dir name)
            (document raw))
          _ e4 in
      let (i, proper) = check_request_ok h req name checked in
      let content =
        build_ok h.sha256_hex name addresses.0 addresses.1 h.ipam_data_dir req.labels raw built in
      let (fresh, wrote) =
        write_ok h.write_error files files'' name (network_file_path h.conf_dir name) (document raw)
          stored in
      record {
        name = name;
        subnet = addresses.0;
        gateway = addresses.1;
        trimmed = i;
        proper = proper;
        allocated = allocated;
        fresh = fresh;
        named = id_of e5;
        written =
            sym (files_of e5)
            ∙ wrote
            ∙ ap (λ c. insert (network_file_path h.conf_dir name) (document c) files) content;
      }
