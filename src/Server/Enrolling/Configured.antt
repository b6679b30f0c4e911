-- ===== src/Server/Enrolling/Configured.antt =====
-- The enroller of a configuration that Load has accepted.
use vtpm_mds.Prelude.{
  ℕ, ◌≡◌, ◌≢◌, ◌≤◌, ◌<◌, ◌∙◌, refl, sym, ap, subst, true, none, some, Option, [], arith,
  if◌then◌else◌, Text, same, same_iff, inl, inr, Bool-cases,
}
use vtpm_mds.Config.{ℤ, pos, MdsConfig, max_devid_lifetime, load, loaded}
use vtpm_mds.Config.Loads.{IsUsable, load_iff}
use vtpm_mds.Server.Enrolling.{
  Files, Settings, Enrolling, failed, enrolls, bad_duration, bad_lifetime, lifetime_of,
  lifetime_text, load_devid_enroller, settings, with_roots, roots_error,
}

-- A lifetime that Load accepts is accepted here.
lifetime_usable :
    (parse_duration : Text → Option ℤ) (cfg : MdsConfig)
    → parse_duration [] ≡ none
    → IsUsable parse_duration cfg
    → (n : ℕ) × (parse_duration cfg.devid_lifetime ≡ some (pos n))
      × (lifetime_of (parse_duration (lifetime_text cfg)) ≡ inr n)
      × (n ≤ max_devid_lifetime)
unfolding lifetime_of
lifetime_usable parse_duration cfg empty u =
    let (n, l, positive, bounded) = u.lifetime in
    elim (Bool-cases (same cfg.devid_lifetime [])) [
      | inl e ↦
          let blank : cfg.devid_lifetime ≡ [] = (same_iff cfg.devid_lifetime []).0 e in
          absurd (cc (l, ap parse_duration blank, empty))
      | inr e ↦ (n, l, rw e (rw l (ground arith)), bounded)
    ]

-- What a start with the lifetime `n` can end in.
abbrev Ends : Files → MdsConfig → ℕ → Enrolling → Type 0
Ends files cfg n r =
    (r ≢ failed bad_duration)
    × (r ≢ failed bad_lifetime)
    × ((s : Settings) → r ≡ enrolls s → s ≡ settings files cfg n)

with_roots-Ends :
    (files : Files) (cfg : MdsConfig) (n : ℕ)
    → Ends files cfg n (with_roots files cfg n (roots_error files cfg.ek_ca_chain))
unfolding roots_error
with_roots-Ends files cfg n = ((λ h. ground arith), (λ h. ground arith), (λ s h. ground arith))

module _ (parse_duration : Text → Option ℤ) (files : Files) (cfg : MdsConfig) where
  start-Ends :
      (n : ℕ)
      → lifetime_of (parse_duration (lifetime_text cfg)) ≡ inr n
      → Ends files cfg n (load_devid_enroller parse_duration files cfg)
  unfolding load_devid_enroller
  start-Ends n e =
      let (a, b, c) = with_roots-Ends files cfg n in
      ((λ h. ground (arith, e, a)), (λ h. ground (arith, e, b)), (λ s h. ground (arith, e, c s)))

  -- Settings that keep the bounds of the configuration.
  abbrev pub Fits : Settings → Type 0
  Fits s =
      (parse_duration cfg.devid_lifetime ≡ some (pos s.lifetime))
      × (0 < s.lifetime)
      × (s.lifetime ≤ max_devid_lifetime)
      × (s.require_cluster_pin ≡ true → s.cluster_pin_dir ≢ [])

  settings-Fits :
      (n : ℕ)
      → parse_duration cfg.devid_lifetime ≡ some (pos n)
      → n ≤ max_devid_lifetime
      → IsUsable parse_duration cfg
      → Fits (settings files cfg n)
  settings-Fits n l bounded u =
      let (m, l', positive, _) = u.lifetime in
      let same_n : m ≡ n = cc in
      (
        l,
        omega arith,
        bounded,
        (λ required.
            let (a, b) = u.pins required in
            let used : (if same cfg.inventory_path [] then cfg.cluster_pin_dir else [])
                ≡ cfg.cluster_pin_dir =
              rw ((same_iff cfg.inventory_path []).1 b) refl in
            λ z. a (sym used ∙ z)),
      )

  -- Where an empty duration does not parse, and a configuration is accepted by Load, the enroller
  -- never fails for its lifetime, and an enroller that starts has the lifetime of the
  -- configuration, which is positive and a year of hours at most, and if it requires a cluster pin
  -- it has a directory for them.
  pub configured_enroller :
      (decode : Text → MdsConfig → Option MdsConfig) (file : Option Text)
      → parse_duration [] ≡ none
      → load parse_duration decode file ≡ loaded cfg
      → (load_devid_enroller parse_duration files cfg ≢ failed bad_duration)
        × (load_devid_enroller parse_duration files cfg ≢ failed bad_lifetime)
        × ((s : Settings) → load_devid_enroller parse_duration files cfg ≡ enrolls s → Fits s)
  configured_enroller decode file empty h =
      let (content, f, d, u) = (load_iff parse_duration decode file cfg).0 h in
      let (n, l, e, bounded) = lifetime_usable parse_duration cfg empty u in
      let (a, b, c) = start-Ends n e in
      (a, b, (λ s made. subst Fits (sym (c s made)) (settings-Fits n l bounded u)))
