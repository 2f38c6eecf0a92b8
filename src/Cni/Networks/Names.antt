-- ===== src/Cni/Networks/Names.antt =====
-- Names of networks and the paths of their files, internal/adapters/cni/networkconfig.go: different names
-- have different files, and a name that is accepted is read as the mode of a named network.
use dockerdless.Base.{
  ℕ, ◌≡◌, refl, sym, ap, ◌∙◌, arith, Bool, true, false, ◌||◌, [], ◌∷◌, ◌++◌, Text, trim_space,
  text_eq, nat_beq, length, length-append, take, take-append, ok, strip_prefix, strip_prefix-append,
  nat_beq_iff, is_some, if◌then◌else◌, Bool-cases, inl, inr,
}
use dockerdless.Cni.Modes.{
  network, contains_byte, parse_network_mode, is_name_byte, all_bytes, matches_name_pattern,
  is_reserved_network_name,
}
use dockerdless.Cni.Networks.{network_file_path, network_file_prefix, network_file_ext, base_name}

-- A name that CreateNetwork accepts.
pub record IsProper (name : Text) : Type 0 where
  pub trimmed : trim_space name ≡ name
  pub pattern : matches_name_pattern name ≡ true
  pub free : is_reserved_network_name name ≡ false

all_bytes-lacks :
    (p : ℕ → Bool) (b : ℕ) (s : Text)
    → p b ≡ false
    → all_bytes p s ≡ true
    → contains_byte b s ≡ false
unfolding all_bytes contains_byte
all_bytes-lacks p b [] n h = refl
all_bytes-lacks p b (c ∷ s) n h = elim (Bool-cases (nat_beq c b)) [
  | inl e ↦ let same = ap p ((nat_beq_iff c b).0 e) in ground arith
  | inr e ↦ ground (arith, all_bytes-lacks p b s n)
]

contains_byte-append :
    (b : ℕ) (s t : Text) → contains_byte b (s ++ t) ≡ (contains_byte b s || contains_byte b t)
unfolding contains_byte
contains_byte-append b [] t = refl
contains_byte-append b (c ∷ s) t = ground (arith, contains_byte-append b s t)

pattern_lacks :
    (b : ℕ) (name : Text)
    → is_name_byte b ≡ false
    → matches_name_pattern name ≡ true
    → contains_byte b name ≡ false
unfolding matches_name_pattern
pattern_lacks b [] n h = cc
pattern_lacks b (c ∷ s) n h = all_bytes-lacks is_name_byte b (c ∷ s) n (ground arith)

base_name-no_slash : (last s : Text) → contains_byte b'/' s ≡ false → base_name last s ≡ last
unfolding base_name contains_byte
base_name-no_slash last [] h = refl
base_name-no_slash last (c ∷ s) h = ground (arith, base_name-no_slash last s)

base_name-append :
    (last dir s : Text) → contains_byte b'/' s ≡ false → base_name last (dir ++ b'/' ∷ s) ≡ s
unfolding base_name
base_name-append last [] s h = base_name-no_slash s s h
base_name-append last (c ∷ dir) s h =
    base_name-append (if nat_beq c b'/' then dir ++ b'/' ∷ s else last) dir s h

tail_lacks :
    (name : Text)
    → contains_byte b'/' name ≡ false
    → contains_byte b'/' (network_file_prefix ++ (name ++ network_file_ext)) ≡ false
unfolding contains_byte
tail_lacks name h = ground (
  arith,
  contains_byte-append b'/' network_file_prefix (name ++ network_file_ext),
  contains_byte-append b'/' name network_file_ext,
)

append-cancel : (p s t : Text) → p ++ s ≡ p ++ t → s ≡ t
append-cancel p s t h =
    let e = sym (strip_prefix-append p s) ∙ ap (strip_prefix p) h ∙ strip_prefix-append p t in cc e

append-cancel_end : (a b e : Text) → a ++ e ≡ b ++ e → a ≡ b
append-cancel_end a b e h =
    let lengths : length a ≡ length b =
      omega (arith, ap length h, length-append a e, length-append b e) in
    sym (take-append a e)
    ∙ ap (take (length a)) h
    ∙ ap (λ n. take n (b ++ e)) lengths
    ∙ take-append b e

pub base_name-path :
    (dir name : Text)
    → IsProper name
    → is_some (
        strip_prefix network_file_prefix
          (base_name (network_file_path dir name) (network_file_path dir name)))
      ≡ true
unfolding network_file_path
base_name-path dir name p =
    let rest = network_file_prefix ++ (name ++ network_file_ext) in
    let lacks = tail_lacks name (pattern_lacks b'/' name refl p.pattern) in
    rw (base_name-append (network_file_path dir name) dir rest lacks)
      (ap is_some (strip_prefix-append network_file_prefix (name ++ network_file_ext)))

pub network_file_path_inj :
    (dir a b : Text) → network_file_path dir a ≡ network_file_path dir b → a ≡ b
unfolding network_file_path
network_file_path_inj dir a b h =
    let past = append-cancel dir _ _ h in
    append-cancel_end a b network_file_ext (
      append-cancel (b'/' ∷ network_file_prefix) (a ++ network_file_ext) (b ++ network_file_ext)
        past)

pub parse_network_mode-IsProper :
    (name : Text) → IsProper name → parse_network_mode name ≡ ok network
unfolding parse_network_mode is_reserved_network_name
parse_network_mode-IsProper name p =
    ground (arith, p.trimmed, p.free, pattern_lacks b':' name refl p.pattern)
