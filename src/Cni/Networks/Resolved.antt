-- ===== src/Cni/Networks/Resolved.antt =====
-- Resolve of internal/adapters/cni/adapter.go for the name of a network: what it finds is the file of that
-- name and nothing else.
use dockerdless.Base.{
  ◌≡◌, ◌≢◌, ◌<◌, refl, sym, ap, ◌∙◌, subst, arith, inl, inr, Bool, true, false, ◌||◌, none, some,
  List, [], ◌∷◌, Text, text_eq, text_beq_iff, length, Listed, lookup, ok, err, ◌==◌, is_some,
  Bool-cases, sort_by, Listed-sort_by,
}
use dockerdless.Cni.Modes.{network_not_found}
use dockerdless.Cni.Config.{Files, document, NetworkConfigFile, Network, network_id_for_name}
use dockerdless.Cni.Networks.{
  Host, network_file_path, find_exact, find_network, list_networks, resolve,
}
use dockerdless.Cni.Networks.Names.{IsProper, network_file_path_inj, parse_network_mode-IsProper}
use dockerdless.Cni.Networks.Directory.{
  ListsFiles, HasHexLength, IsDirectory, network_at, Stored, parse_files-Reads, same_document,
  nonempty_name, network_at_fields,
}

abbrev matches : Text → Network → Bool
matches ref n = n.name == ref || n.id == ref

-- The only one that matches is found, wherever it stands.
find_exact_only :
    (ref : Text) (n : Network) (ns : List Network)
    → matches ref n ≡ true
    → ((m : Network) → Listed m ns → matches ref m ≡ true → m ≡ n)
    → Listed n ns
    → find_exact ref ns ≡ some n
unfolding find_exact
find_exact_only ref n [] hit only l = absurd l
find_exact_only ref n (m ∷ ns) hit only l = elim (Bool-cases (matches ref m)) [
  | inl e ↦ rw e (ap some (only m (inl refl) e))
  | inr e ↦ elim l [
    | inl i ↦ absurd (let t = ap (matches ref) i in cc (t, e, hit))
    | inr k ↦ rw e (find_exact_only ref n ns hit (λ q j. only q (inr j)) k)
  ]
]

find_exact-none :
    (ref : Text) (ns : List Network)
    → ((m : Network) → Listed m ns → matches ref m ≡ false)
    → find_exact ref ns ≡ none
unfolding find_exact
find_exact-none ref [] no_match = refl
find_exact-none ref (m ∷ ns) no_match =
    rw (no_match m (inl refl)) (find_exact-none ref ns (λ q j. no_match q (inr j)))

second_of : {a b : Bool} → a ≡ false → (a || b) ≡ true → b ≡ true
second_of e hit = ground arith

first_of : {a : Bool} (b : Bool) → a ≡ true → (a || b) ≡ true
first_of b e = ground arith

find_network_exact :
    (ref : Text) (n : Network) (ns : List Network)
    → find_exact ref ns ≡ some n
    → find_network ref ns ≡ ok n
unfolding find_network
find_network_exact ref n ns e = ground (arith, e)

find_network-none :
    (ref : Text) (ns : List Network)
    → length ref < 12
    → find_exact ref ns ≡ none
    → find_network ref ns ≡ err (network_not_found ref)
unfolding find_network
find_network-none ref ns short e = ground (arith, e)

module _ (h : Host) (lists : ListsFiles h) (hex : HasHexLength h) (files : Files)
    (d : IsDirectory h files) where
  -- A stored network that matches a name which is no identity is the one of that name.
  matches-name :
      (name : Text) (m : Network)
      → length name ≢ 64
      → Stored h files m
      → matches name m ≡ true
      → m.name ≡ name
  unfolding network_id_for_name
  matches-name name m short (raw, found, e, proper, id) hit = elim (Bool-cases (m.name == name)) [
    | inl same ↦ (text_beq_iff m.name name).0 same
    | inr other ↦
        let by_id = (text_beq_iff m.id name).0 (second_of other hit) in
        let own = ap (λ (n : Network). n.id) e ∙ (network_at_fields h raw id).1 in
        absurd (short (ap length (sym by_id ∙ own) ∙ hex _))
  ]

  -- The stored network of a name is the one of the name's file.
  Stored-only :
      (name : Text) (m : Network) (raw : NetworkConfigFile)
      → Stored h files m
      → m.name ≡ name
      → lookup (network_file_path h.conf_dir name) files ≡ some (document raw)
      → m ≡ network_at h raw
  Stored-only name m raw (own, found, e, proper, id) same there =
      let i = sym (ap (λ (n : Network). n.name) e ∙ (network_at_fields h own id).0) ∙ same in
      let j = ap (λ n. lookup (network_file_path h.conf_dir n) files) i in
      e ∙ ap (network_at h) (same_document h own raw (sym found ∙ j ∙ there))

  -- List returns the stored networks and no other.
  pub record Lists (ns : List Network) : Type 0 where
    pub listed : list_networks h none files ≡ ok ns
    pub sound : (m : Network) → Listed m ns → Stored h files m
    pub complete :
        (raw : NetworkConfigFile)
        → lookup (network_file_path h.conf_dir raw.name) files ≡ some (document raw)
        → Listed (network_at h raw) ns

  pub list_networks-Lists : (ns : List Network) × Lists ns
  unfolding list_networks
  list_networks-Lists =
      let (paths, listing, there, all) = lists files in
      let (ns, r) = parse_files-Reads h files paths d there in
      (
        sort_by (λ n. n.name) ns,
        record {
          listed = rw (listing, r.parsed) refl;
          sound = λ m l. r.sound m ((Listed-sort_by (λ n. n.name) m ns).0 l);
          complete = λ raw e.
              (Listed-sort_by (λ n. n.name) (network_at h raw) ns).1
                (r.complete raw e (all raw.name (ap is_some e)));
        },
      )

  module _ (name : Text) (p : IsProper name) where
    resolve-find : (ns : List Network) → Lists ns → resolve h none files name ≡ find_network name ns
    unfolding resolve
    resolve-find ns l =
        rw (p.trimmed, nonempty_name h name p, parse_network_mode-IsProper name p, l.listed) refl

    -- The file of the name holds the document of a network with that name.
    file_name :
        (raw : NetworkConfigFile)
        → lookup (network_file_path h.conf_dir name) files ≡ some (document raw)
        → raw.name ≡ name
    file_name raw e =
        let (own, same, o) = d (network_file_path h.conf_dir name) (document raw) e in
        let i = network_file_path_inj h.conf_dir name own.name o.path in
        ap (λ (r : NetworkConfigFile). r.name) (same_document h raw own (ap some same)) ∙ sym i

    -- Resolving the name of a network whose file is there gives that network.
    pub resolve_stored :
        (raw : NetworkConfigFile)
        → length name ≢ 64
        → lookup (network_file_path h.conf_dir name) files ≡ some (document raw)
        → resolve h none files name ≡ ok (network_at h raw)
    resolve_stored raw short e =
        let (ns, l) = list_networks-Lists in
        let (own, same, o) = d (network_file_path h.conf_dir name) (document raw) e in
        let n = network_at h raw in
        let i = same_document h raw own (ap some same) in
        let named = file_name raw e in
        let id =
          subst
            (λ (r : NetworkConfigFile). r.dockerdless_id ≡ network_id_for_name h.sha256_hex r.name)
            (sym i) o.id in
        let hit : matches name n ≡ true =
          first_of (n.id == name)
            ((text_beq_iff n.name name).1 ((network_at_fields h raw id).0 ∙ named)) in
        let here =
          l.complete raw (ap (λ m. lookup (network_file_path h.conf_dir m) files) named ∙ e) in
        let found =
          find_exact_only name n ns hit
            (λ m k t.
              Stored-only name m raw (l.sound m k) (matches-name name m short (l.sound m k) t) e)
            here in
        resolve-find ns l ∙ find_network_exact name n ns found

    -- Resolving a short name without a file gives no network.
    pub resolve_absent :
        length name < 12
        → lookup (network_file_path h.conf_dir name) files ≡ none
        → resolve h none files name ≡ err (network_not_found name)
    resolve_absent short e =
        let (ns, l) = list_networks-Lists in
        let nothing = find_exact-none name ns (λ m k. unmatched m (l.sound m k)) in
        resolve-find ns l ∙ find_network-none name ns short nothing
      where
        unmatched : (m : Network) → Stored h files m → matches name m ≡ false
        unmatched m (own, found, i, proper, id) = elim (Bool-cases (matches name m)) [
          | inr k ↦ k
          | inl k ↦
              let named = matches-name name m (omega arith) (own, found, i, proper, id) k in
              let j =
                sym (ap (λ (n : Network). n.name) i ∙ (network_at_fields h own id).0) ∙ named in
              cc (ap (λ n. lookup (network_file_path h.conf_dir n) files) j, found, e)
        ]
