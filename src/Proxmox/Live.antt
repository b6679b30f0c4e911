-- ===== src/Proxmox/Live.antt =====
-- Only the live section of a configuration is read.
use vtpm_mds.Prelude.{
  ℕ, ◌≡◌, ◌∙◌, refl, ap, true, false, List, [], ◌∷◌, ◌++◌, arith, Text, trim_space, split_on,
  contains_rune, ◌==◌, Bool-cases, inl, inr,
}
use vtpm_mds.Proxmox.{Parsed, is_header, parse_line, parse_lines, parse_vm_config, config_of}

split_on-cons : (sep : ℕ) (s : Text) → (w : Text) × (ws : List Text) × (split_on sep s ≡ w ∷ ws)
unfolding split_on
split_on-cons sep [] = ([], [], refl)
split_on-cons sep (c ∷ s) =
    let (w, ws, e) = split_on-cons sep s in
    elim (Bool-cases (c == sep)) [
      | inl q ↦ ([], split_on sep s, rw q refl)
      | inr q ↦ (c ∷ w, ws, rw (q, e) refl)
    ]

-- Splitting at a separator splits the texts around it.
split_on-append :
    (sep : ℕ) (s t : Text) → split_on sep (s ++ (sep ∷ t)) ≡ split_on sep s ++ split_on sep t
unfolding split_on
split_on-append sep [] t = ground arith
split_on-append sep (c ∷ s) t =
    let (w, ws, e) = split_on-cons sep s in
    elim (Bool-cases (c == sep)) [
      | inl q ↦ rw (q, split_on-append sep s t) refl
      | inr q ↦ rw (q, split_on-append sep s t, e) refl
    ]

-- A text without the separator is one part.
split_on-one : (sep : ℕ) (s : Text) → contains_rune sep s ≡ false → split_on sep s ≡ s ∷ []
unfolding split_on contains_rune
split_on-one sep [] h = refl
split_on-one sep (c ∷ s) h =
    let (q, rest) : ((c == sep) ≡ false) × (contains_rune sep s ≡ false) =
      (ground arith, ground arith) in
    rw (q, split_on-one sep s rest) refl

parse_lines-header :
    (p : Parsed) (live : List Text) (header : Text) (rest : List Text)
    → is_header header ≡ true
    → parse_lines p (live ++ header ∷ rest) ≡ parse_lines p live
unfolding parse_lines
parse_lines-header p [] header rest h = rw h
parse_lines-header p (line ∷ live) header rest h =
    rw (parse_lines-header (parse_line p (trim_space line)) live header rest h)

-- any
pub parse_vm_config_live :
    (vmid live header others : Text)
    → is_header header ≡ true
    → contains_rune 10 header ≡ false
    → parse_vm_config vmid (live ++ (10 ∷ (header ++ (10 ∷ others)))) ≡ parse_vm_config vmid live
unfolding parse_vm_config
parse_vm_config_live vmid live header others h one =
    let parts : split_on 10 (live ++ (10 ∷ (header ++ (10 ∷ others))))
        ≡ split_on 10 live ++ header ∷ split_on 10 others =
      split_on-append 10 live (header ++ (10 ∷ others))
      ∙ ap (λ ws. split_on 10 live ++ ws)
          (split_on-append 10 header others
            ∙ ap (λ ws. ws ++ split_on 10 others) (split_on-one 10 header one)) in
    ap (config_of vmid) (
      ap (parse_lines (record { raw = []; macs = [] })) parts
      ∙ parse_lines-header _ (split_on 10 live) header (split_on 10 others) h)
