-- ===== src/Cni/Networks/Directory.antt =====
-- The directory of configuration files as the map of networks that internal/adapters/cni/adapter.go makes of
-- it: every file belongs to one network, and List reads back exactly these.
use dockerdless.Base.{
  ◌≡◌, refl, sym, ap, ◌∙◌, subst, arith, inl, inr, Bool, true, false, none, some, List, [], ◌∷◌,
  Text, is_empty, text_eq, length, Listed, lookup, ok, if◌then◌else◌, is_some, Bool-cases,
  Option-cases, strip_prefix,
}
use dockerdless.Cni.Config.{
  Files, FileContent, document, NetworkConfigFile, PluginConfig, Network, take_bridge, scan_plugins,
  network_of, network_id_for_name, parse_network_file,
}
use dockerdless.Cni.Modes.{network, driver_bridge, matches_name_pattern}
use dockerdless.Cni.Networks.{
  Host, network_file_path, network_file_prefix, conf_extensions, base_name, parse_files,
}
use dockerdless.Cni.Networks.Names.{IsProper, base_name-path}

-- libcni.ConfFiles as it is documented: it lists files that are there, and every network's file.
abbrev pub ListsFiles : Host → Type 0
ListsFiles h =
    (files : Files)
    → (paths : List Text) × (h.conf_files files conf_extensions ≡ ok paths)
      × ((p : Text) → Listed p paths → is_some (lookup p files) ≡ true)
      × ((name : Text)
          → is_some (lookup (network_file_path h.conf_dir name) files) ≡ true
          → Listed (network_file_path h.conf_dir name) paths)

-- SHA-256 in hexadecimal has 64 digits.
abbrev pub HasHexLength : Host → Type 0
HasHexLength h = (t : Text) → length (h.sha256_hex t) ≡ 64

module _ (h : Host) where
  -- The file of a network whose name CreateNetwork accepts.
  pub record Owned (p : Text) (raw : NetworkConfigFile) : Type 0 where
    pub path : p ≡ network_file_path h.conf_dir raw.name
    pub proper : IsProper raw.name
    pub id : raw.dockerdless_id ≡ network_id_for_name h.sha256_hex raw.name

  abbrev pub IsDirectory : Files → Type 0
  IsDirectory files =
      (p : Text) (c : FileContent)
      → lookup p files ≡ some c
      → (raw : NetworkConfigFile) × (c ≡ document raw) × Owned p raw

  abbrev pub network_at : NetworkConfigFile → Network
  network_at raw = network_of h.sha256_hex (network_file_path h.conf_dir raw.name) raw

  -- The network is that of a file.
  abbrev pub Stored : Files → Network → Type 0
  Stored files m =
      (raw : NetworkConfigFile) × (lookup (network_file_path h.conf_dir raw.name) files
        ≡ some (document raw))
      × (m ≡ network_at raw)
      × IsProper raw.name
      × (raw.dockerdless_id ≡ network_id_for_name h.sha256_hex raw.name)

  abbrev Keeps : Network → Network → Type 0
  Keeps n m = (m.name ≡ n.name) × (m.id ≡ n.id) × (m.file ≡ n.file) × (m.mode ≡ n.mode)

  take_bridge-Keeps : (n : Network) (p : PluginConfig) → Keeps n (take_bridge n p)
  unfolding take_bridge
  take_bridge-Keeps n p = ground arith

  scan_plugins-Keeps : (n : Network) (ps : List PluginConfig) → Keeps n (scan_plugins n ps)
  unfolding scan_plugins
  scan_plugins-Keeps n [] = (refl, refl, refl, refl)
  scan_plugins-Keeps n (p ∷ ps) = elim (Bool-cases (is_empty p.bridge)) [
    | inr e ↦ rw e (take_bridge-Keeps n p)
    | inl e ↦ elim (Bool-cases (is_empty p.kind)) [
      | inl k ↦ rw (e, k) (scan_plugins-Keeps n ps)
      | inr k ↦ rw (e, k) (scan_plugins-Keeps (record n { driver = p.kind }) ps)
    ]
  ]

  id_or_default : {A : Type 0} (b : Bool) {x y : A} → y ≡ x → (if b then x else y) ≡ x
  id_or_default true e = refl
  id_or_default false e = e

  -- What a network has from its file's name fields.
  pub network_at_fields :
      (raw : NetworkConfigFile)
      → raw.dockerdless_id ≡ network_id_for_name h.sha256_hex raw.name
      → ((network_at raw).name ≡ raw.name)
        × ((network_at raw).id ≡ network_id_for_name h.sha256_hex raw.name)
  unfolding network_of
  network_at_fields raw e =
      let seed : Network = record {
        id =
            if is_empty raw.dockerdless_id
            then network_id_for_name h.sha256_hex raw.name
            else raw.dockerdless_id;
        name = raw.name;
        driver = driver_bridge;
        mode = network;
        file = network_file_path h.conf_dir raw.name;
        bridge = [];
        subnet = [];
        gateway = [];
        labels = raw.dockerdless_labels;
      } in
      let keeps = scan_plugins-Keeps seed raw.plugins in
      (keeps.0, keeps.1 ∙ id_or_default (is_empty raw.dockerdless_id) e)

  empty_pattern : matches_name_pattern [] ≡ false
  unfolding matches_name_pattern
  empty_pattern = refl

  pub nonempty_name : (name : Text) → IsProper name → is_empty name ≡ false
  nonempty_name [] p = cc (empty_pattern, p.pattern)
  nonempty_name (c ∷ s) p = refl

  parse_network_file-Owned :
      (p : Text) (raw : NetworkConfigFile)
      → Owned p raw
      → parse_network_file h.sha256_hex p (some (document raw)) ≡ ok (network_at raw)
  unfolding parse_network_file
  parse_network_file-Owned p raw o =
      rw (nonempty_name raw.name o.proper) (ap (λ q. ok (network_of h.sha256_hex q raw)) o.path)

  parse_files-Owned :
      (files : Files) (p : Text) (paths : List Text) (raw : NetworkConfigFile) (ns : List Network)
      → lookup p files ≡ some (document raw)
      → Owned p raw
      → parse_files h none files paths ≡ ok ns
      → parse_files h none files (p ∷ paths) ≡ ok (network_at raw ∷ ns)
  unfolding parse_files
  parse_files-Owned files p paths raw ns found o rest =
      let mine =
        subst (λ q. is_some (strip_prefix network_file_prefix (base_name q q)) ≡ true) (sym o.path)
          (base_name-path h.conf_dir raw.name o.proper) in
      rw (mine, found, parse_network_file-Owned p raw o, rest) refl

  abbrev AreThere : Files → List Text → Type 0
  AreThere files paths = (p : Text) → Listed p paths → is_some (lookup p files) ≡ true

  -- What List has read from the listed files: a network for each, and nothing else.
  pub record Reads (files : Files) (paths : List Text) (ns : List Network) : Type 0 where
    pub parsed : parse_files h none files paths ≡ ok ns
    pub sound : (m : Network) → Listed m ns → Stored files m
    pub complete :
        (raw : NetworkConfigFile)
        → lookup (network_file_path h.conf_dir raw.name) files ≡ some (document raw)
        → Listed (network_file_path h.conf_dir raw.name) paths
        → Listed (network_at raw) ns

  pub same_document : (a b : NetworkConfigFile) → some (document a) ≡ some (document b) → a ≡ b
  same_document a b e = cc

  pub parse_files-Reads :
      (files : Files) (paths : List Text)
      → IsDirectory files
      → AreThere files paths
      → (ns : List Network) × Reads files paths ns
  unfolding parse_files
  parse_files-Reads files [] d there =
      ([], record { parsed = refl; sound = λ m l. absurd l; complete = λ raw e l. absurd l })
  parse_files-Reads files (p ∷ paths) d there = elim (Option-cases (lookup p files)) [
    | inl e ↦ absurd (let t = there p (inl refl) in ground arith)
    | inr (c, e) ↦
        let (raw, same, o) = d p c e in
        let (ns, r) = parse_files-Reads files paths d (λ q l. there q (inr l)) in
        let found = e ∙ ap some same in
        (
          network_at raw ∷ ns,
          record {
            parsed = parse_files-Owned files p paths raw ns found o r.parsed;
            sound = λ m. elim [
              | inl i ↦ (raw, ap (λ q. lookup q files) (sym o.path) ∙ found, sym i, o.proper, o.id)
              | inr l ↦ r.sound m l
            ];
            complete = λ other there'. elim [
              | inl i ↦ inl (
                  ap network_at
                    (same_document raw other (sym found ∙ ap (λ q. lookup q files) i ∙ there')))
              | inr l ↦ inr (r.complete other there' l)
            ];
          },
        )
  ]
