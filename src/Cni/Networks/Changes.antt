-- ===== src/Cni/Networks/Changes.antt =====
-- CreateNetwork and Resolve of internal/adapters/cni/adapter.go together: a created network is what its name
-- resolves to, and the other names resolve as before.
use dockerdless.Base.{
  ◌≡◌, ◌≢◌, ◌<◌, refl, sym, ap, ◌∙◌, subst, arith, inl, inr, Bool, true, false, Option, none, some,
  Text, is_empty, trim_space, text_eq, text_beq_iff, length, lookup, insert, lookup-insert, Dict,
  ok, ◌==◌, Option-cases, Bool-cases, if◌then◌else◌,
}
use dockerdless.Cni.Modes.{network, driver_bridge}
use dockerdless.Cni.Config.{
  Files, FileContent, document, Network, network_id_for_name, network_of, bridge_config,
  bridge_interface_name,
}
use dockerdless.Cni.Networks.{
  Host, CreateNetworkRequest, network_file_path, allocate_subnet, create_network, resolve,
}
use dockerdless.Cni.Networks.Names.{IsProper, network_file_path_inj}
use dockerdless.Cni.Networks.Directory.{ListsFiles, HasHexLength, IsDirectory, network_at}
use dockerdless.Cni.Networks.Resolved.{resolve_stored, resolve_absent}
use dockerdless.Cni.Networks.Created.{Creates, create_network-Creates}

module _ {A : Type 0} (x y : A) (b : Bool) where
  if_true : b ≡ true → (if b then x else y) ≡ x
  if_true e = rw e refl

  if_false : b ≡ false → (if b then x else y) ≡ y
  if_false e = rw e refl

differ : (s t : Text) → ¬ (s ≡ t) → (s == t) ≡ false
differ s t n = ground (arith, text_beq_iff s t)

if_same : {A : Type 0} (b : Bool) (x : A) → (if b then x else x) ≡ x
if_same true x = refl
if_same false x = refl

-- The network that CreateNetwork makes of a request.
abbrev pub created_network : Host → Text → Text → Text → Dict Text Text → Network
created_network h name subnet gateway labels = record {
  id = network_id_for_name h.sha256_hex name;
  name = name;
  driver = driver_bridge;
  mode = network;
  file = network_file_path h.conf_dir name;
  bridge = bridge_interface_name h.sha256_hex name;
  subnet = subnet;
  gateway = gateway;
  labels = labels;
}

module _ (c d : FileContent) (o : Option FileContent) (b : Bool) where
  here_content : b ≡ true → (if b then some d else o) ≡ some c → c ≡ d
  here_content t e = ground arith

  there_content : b ≡ false → (if b then some d else o) ≡ some c → o ≡ some c
  there_content t e = ground arith

module _ (h : Host) where
  network_at-created_network :
      (name subnet gateway : Text) (labels : Dict Text Text)
      → network_at h (bridge_config h.sha256_hex name subnet gateway h.ipam_data_dir labels)
        ≡ created_network h name subnet gateway labels
  unfolding network_of bridge_interface_name
  network_at-created_network name subnet gateway labels =
      let id = network_id_for_name h.sha256_hex name in
      rw (if_same (is_empty id) id, if_same (is_empty gateway) gateway) refl

  module _ (files : Files) (d : IsDirectory h files) where
    insert-IsDirectory :
        (name subnet gateway : Text) (labels : Dict Text Text)
        → IsProper name
        → IsDirectory h (
            insert
              (network_file_path h.conf_dir name)
              (document (bridge_config h.sha256_hex name subnet gateway h.ipam_data_dir labels))
              files)
    insert-IsDirectory name subnet gateway labels proper p c e =
        let path = network_file_path h.conf_dir name in
        let raw = bridge_config h.sha256_hex name subnet gateway h.ipam_data_dir labels in
        let found = sym (lookup-insert path p (document raw) files) ∙ e in
        elim (Bool-cases (path == p)) [
          | inl same ↦ (
            raw,
            here_content _ _ _ (path == p) same found,
            record { path = sym ((text_beq_iff path p).0 same); proper = proper; id = refl },
          )
          | inr other ↦ d p c (there_content _ _ _ (path == p) other found)
        ]

  -- Two directories that agree on the file of a short name agree on what the name resolves to.
  module _ (lists : ListsFiles h) (hex : HasHexLength h) (files files' : Files) where
    pub resolve_agrees :
        (name : Text)
        → IsDirectory h files
        → IsDirectory h files'
        → IsProper name
        → length name < 12
        → lookup (network_file_path h.conf_dir name) files'
          ≡ lookup (network_file_path h.conf_dir name) files
        → resolve h none files' name ≡ resolve h none files name
    resolve_agrees name d d' proper short same =
        elim (Option-cases (lookup (network_file_path h.conf_dir name) files)) [
          | inl e ↦
              resolve_absent h lists hex files' d' name proper short (same ∙ e)
              ∙ sym (resolve_absent h lists hex files d name proper short e)
          | inr (c, e) ↦
              let (raw, i, o) = d (network_file_path h.conf_dir name) c e in
              let found = e ∙ ap some i in
              resolve_stored h lists hex files' d' name proper raw (omega arith) (same ∙ found)
              ∙ sym (resolve_stored h lists hex files d name proper raw (omega arith) found)
        ]

    -- What a created network of this name resolves to, and how another name resolves.
    abbrev pub Resolves : CreateNetworkRequest → Text → Text → Text → Type 0
    Resolves req id other name =
        IsDirectory h files'
        × ((subnet : Text) × (gateway : Text) × (allocate_subnet h none files req.subnet req.gateway
              ≡ ok (subnet, gateway))
            × (resolve h none files' name ≡ ok (created_network h name subnet gateway req.labels))
            × (id ≡ (created_network h name subnet gateway req.labels).id))
        × (resolve h none files' other ≡ resolve h none files other)

    Creates-Resolves :
        (req : CreateNetworkRequest) (id other : Text) (c : Creates h files req id files')
        → IsDirectory h files
        → length c.name ≢ 64
        → IsProper other
        → other ≢ c.name
        → length other < 12
        → Resolves req id other c.name
    Creates-Resolves req id other c d long p ne short =
        let path = network_file_path h.conf_dir c.name in
        let raw = bridge_config h.sha256_hex c.name c.subnet c.gateway h.ipam_data_dir req.labels in
        let d' =
          subst (IsDirectory h) (sym c.written)
            (insert-IsDirectory files d c.name c.subnet c.gateway req.labels c.proper) in
        let look =
          λ (p : Text). ap (lookup p) c.written ∙ lookup-insert path p (document raw) files in
        (
          d',
          (
            c.subnet,
            c.gateway,
            c.allocated,
            resolve_stored h lists hex files' d' c.name c.proper raw long
                  (look path ∙ if_true _ _ (path == path) ((text_beq_iff path path).1 refl))
                ∙ ap ok (network_at-created_network c.name c.subnet c.gateway req.labels),
            c.named,
          ),
          resolve_agrees other d d' p short (
              look (network_file_path h.conf_dir other)
              ∙ if_false _ _ (path == network_file_path h.conf_dir other) (
                  differ path (network_file_path h.conf_dir other)
                    (λ i. ne (sym (network_file_path_inj h.conf_dir c.name other i))))),
        )

    -- On a directory of networks, a successful CreateNetwork leaves a directory of networks in which the
    -- trimmed name of the request, unless it has the 64 bytes of an identity, resolves to the network
    -- with the subnet and the gateway that allocateSubnet gave and with the identity returned; any
    -- other well-formed name of less than 12 bytes resolves exactly as before.
    pub create_network-resolve :
        (req : CreateNetworkRequest) (id other : Text)
        → IsDirectory h files
        → length (trim_space req.name) ≢ 64
        → IsProper other
        → other ≢ trim_space req.name
        → length other < 12
        → create_network h none files req ≡ ok (id, files')
        → Resolves req id other (trim_space req.name)
    create_network-resolve req id other d long p ne short e =
        let c = create_network-Creates h files req id files' e in
        subst (Resolves req id other) (sym c.trimmed) (
          Creates-Resolves req id other c d (λ i. long (ap length c.trimmed ∙ i)) p
            (λ i. ne (i ∙ sym c.trimmed)) short)
