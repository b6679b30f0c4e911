-- ===== src/Proxmox/Clean.antt =====
-- What holds of every record that is read from a guest's configuration.
use vtpm_mds.Prelude.{
  ℕ, zero, suc, ◌≡◌, refl, ap, subst, Bool, true, ◌&&◌, ◌||◌, ◌==◌, leb, List, [], ◌∷◌, arith, Text,
  codes, same, Bool-cases, inl, inr, Option, none, some, All, All-append, Option-cases, length,
  split_on, to_lower, has_prefix, lower_rune, trim_space,
}
use vtpm_mds.Dict
use vtpm_mds.Dict.{Dict, get-put, get-empty}
use vtpm_mds.Proxmox.{
  Parsed, is_digit, is_mac_rune, take_class, net_mac, key_value, put_raw, push_mac, parse_line,
  parse_lines, is_header, parse_vm_config, mac_after, virtio_after, after_prefix, after_digits,
}

-- A digit, a small letter up to f, or a colon.
abbrev pub is_low_mac_rune : ℕ → Bool
is_low_mac_rune c = is_digit c || (leb b'a' c && leb c b'f') || c == b':'

-- 17 of these, as many as a MAC has.
abbrev pub IsMac : Text → Type 0
IsMac m = (length m ≡ 17) × All (λ c. is_low_mac_rune c ≡ true) m

abbrev LowMac : ℕ → Text → Type 0
LowMac n m = (length m ≡ n) × All (λ c. is_low_mac_rune c ≡ true) m

some-inj : {s t : Text} → some s ≡ some t → s ≡ t
some-inj h = cc

lower_mac_rune : (c : ℕ) → is_mac_rune c ≡ true → is_low_mac_rune (lower_rune c) ≡ true
unfolding lower_rune
lower_mac_rune c h = ground arith

take_class-low : (n : ℕ) (s t : Text) → take_class is_mac_rune n s ≡ some t → LowMac n (to_lower t)
unfolding take_class to_lower
take_class-low zero s [] h = (refl, tt)
take_class-low zero s (x ∷ t) h = cc
take_class-low (suc n) [] t h = cc
take_class-low (suc n) (c ∷ s) t h =
    let rest = take_class is_mac_rune n s in
    elim (Bool-cases (is_mac_rune c)) [
      | inr e ↦ let no : none ≡ some t = rw e at h in cc
      | inl e ↦ elim (Option-cases rest) [
        | inl q ↦ let no : none ≡ some t = rw q at (rw e at h) in cc
        | inr (r, q) ↦
            let made : some (c ∷ r) ≡ some t = rw q at (rw e at h) in
            let (l, a) = take_class-low n s r q in
            subst (λ (u : Text). LowMac (suc n) (to_lower u)) (some-inj made)
              (ap suc l, (lower_mac_rune c e, a))
      ]
    ]

mac_after-IsMac : (o : Option Text) (t : Text) → mac_after o ≡ some t → IsMac (to_lower t)
unfolding mac_after
mac_after-IsMac none t h = cc
mac_after-IsMac (some s) t h = take_class-low 17 s t h

virtio_after-IsMac : (o : Option Text) (t : Text) → virtio_after o ≡ some t → IsMac (to_lower t)
unfolding virtio_after
virtio_after-IsMac none t h = cc
virtio_after-IsMac (some s) t h = mac_after-IsMac (after_digits s) t h

net_mac-IsMac : (line t : Text) → net_mac line ≡ some t → IsMac (to_lower t)
unfolding net_mac
net_mac-IsMac line t h = virtio_after-IsMac (after_prefix (codes "net") line) t h

-- The loop keeps these.
abbrev IsClean : Parsed → Type 0
IsClean p = (Dict.get (codes "public-ipv4") p.raw ≡ none) × All IsMac p.macs

put_raw_clean :
    (kv : Option (Text × Text)) (raw : Dict Text)
    → Dict.get (codes "public-ipv4") raw ≡ none
    → Dict.get (codes "public-ipv4") (put_raw kv raw) ≡ none
unfolding put_raw
put_raw_clean none raw h = h
put_raw_clean (some (key, value)) raw h =
    ground (arith, get-put key (codes "public-ipv4") value raw)

push_mac_clean :
    (line : Text) (m : Option Text) (macs : List Text)
    → net_mac line ≡ m
    → All IsMac macs
    → All IsMac (push_mac m macs)
unfolding push_mac
push_mac_clean line none macs e h = h
push_mac_clean line (some m) macs e h =
    All-append IsMac macs (to_lower m ∷ []) h (net_mac-IsMac line m e, tt)

parse_line-IsClean : (p : Parsed) (line : Text) → IsClean p → IsClean (parse_line p line)
unfolding parse_line
parse_line-IsClean p line (a, m) = elim (Bool-cases (same line [] || has_prefix (codes "#") line)) [
  | inl e ↦ rw e (a, m)
  | inr e ↦
      rw e
        (put_raw_clean (key_value line) p.raw a, push_mac_clean line (net_mac line) p.macs refl m)
]

parse_lines-IsClean : (lines : List Text) (p : Parsed) → IsClean p → IsClean (parse_lines p lines)
unfolding parse_lines
parse_lines-IsClean [] p h = h
parse_lines-IsClean (line ∷ lines) p h = elim (Bool-cases (is_header line)) [
  | inl e ↦ rw e h
  | inr e ↦ rw e (
      parse_lines-IsClean lines (parse_line p (trim_space line))
        (parse_line-IsClean p (trim_space line) h))
]

-- The record of a guest configuration has the VM ID it was asked for, no key public-ipv4, and only
-- MAC addresses of 17 characters that are digits, colons or lower-case letters up to f.
pub parse_vm_config_clean :
    (vmid content : Text)
    → ((parse_vm_config vmid content).vmid ≡ vmid)
      × (Dict.get (codes "public-ipv4") (parse_vm_config vmid content).raw_config ≡ none)
      × All IsMac (parse_vm_config vmid content).macs
unfolding parse_vm_config
parse_vm_config_clean vmid content =
    let (a, m) =
      parse_lines-IsClean (split_on 10 content) (record { raw = []; macs = [] })
        (get-empty _, tt) in
    (refl, a, m)
