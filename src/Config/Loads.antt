-- ===== src/Config/Loads.antt =====
-- Which configurations Load accepts.
use vtpm_mds.Prelude.{
  ℕ, ◌≡◌, ◌≢◌, ◌≤◌, ◌<◌, ◌↔◌, refl, true, none, some, Option, [], arith, Text, same, same_iff, inl,
  inr, Bool-cases, Option-cases, same_ne, ap, subst, ◌∙◌,
}
use vtpm_mds.Config.{
  ℤ, pos, negsuc, MdsConfig, loaded, refused, default_config, max_devid_lifetime, check, load,
  lifetime_error, pin_error, ConfigError, no_listen_addr, answer, or_else, ttl_error,
}

module _ (parse_duration : Text → Option ℤ) where
  -- What Load demands of a configuration.
  pub record IsUsable (cfg : MdsConfig) : Type 0 where
    pub listens : cfg.listen_addr ≢ []
    pub ttl : (d : ℤ) × (parse_duration cfg.token_ttl ≡ some d)
    pub lifetime :
        (n : ℕ) × (parse_duration cfg.devid_lifetime ≡ some (pos n))
        × (0 < n)
        × (n ≤ max_devid_lifetime)
    pub pins :
        cfg.require_cluster_pin ≡ true → (cfg.cluster_pin_dir ≢ []) × (cfg.inventory_path ≡ [])

  lifetime_ok :
      (o : Option ℤ)
      → lifetime_error o ≡ none
      → (n : ℕ) × (o ≡ some (pos n)) × (0 < n) × (n ≤ max_devid_lifetime)
  unfolding lifetime_error
  lifetime_ok none h = cc
  lifetime_ok (some (negsuc n)) h = cc
  lifetime_ok (some (pos n)) h = (n, refl, ground arith, ground arith)

  lifetime_ok_of : (n : ℕ) → 0 < n → n ≤ max_devid_lifetime → lifetime_error (some (pos n)) ≡ none
  unfolding lifetime_error
  lifetime_ok_of n h k = ground arith

  pins_ok :
      (cfg : MdsConfig)
      → pin_error cfg ≡ none
        ↔ (cfg.require_cluster_pin ≡ true → (cfg.cluster_pin_dir ≢ []) × (cfg.inventory_path ≡ []))
  unfolding pin_error
  pins_ok cfg = elim (Bool-cases cfg.require_cluster_pin) [
    | inl e ↦ rw e (
      (λ h _. ground (arith, same_iff cfg.cluster_pin_dir [], same_iff cfg.inventory_path [])),
      (λ f.
          let (a, b) = f refl in
          ground (arith, same_iff cfg.cluster_pin_dir [], same_iff cfg.inventory_path [])),
    )
    | inr e ↦ rw e ((λ h k. cc), (λ h. refl))
  ]

  ttl_ok : (o : Option ℤ) → ttl_error o ≡ none → (d : ℤ) × (o ≡ some d)
  ttl_ok none h = cc
  ttl_ok (some d) h = (d, refl)

  answer-loaded :
      (cfg out : MdsConfig) (a b c : Option ConfigError)
      → answer cfg (or_else a (or_else b c)) ≡ loaded out
      → (a ≡ none) × (b ≡ none) × (c ≡ none) × (cfg ≡ out)
  answer-loaded cfg out none none none h = (refl, refl, refl, cc)
  answer-loaded cfg out none none (some e) h = cc
  answer-loaded cfg out none (some e) c h = cc
  answer-loaded cfg out (some e) b c h = cc

  check-loaded :
      (cfg out : MdsConfig) → check parse_duration cfg ≡ loaded out → IsUsable cfg × (cfg ≡ out)
  unfolding check
  check-loaded cfg out h = elim (Bool-cases (same cfg.listen_addr [])) [
    | inl e ↦ let bad : refused no_listen_addr ≡ loaded out = rw e at h in cc
    | inr e ↦
        let (t, l, p, same_cfg) = answer-loaded cfg out _ _ _ (rw e at h) in
        (
          record {
            listens = λ q. ground (arith, same_iff cfg.listen_addr []);
            ttl = ttl_ok (parse_duration cfg.token_ttl) t;
            lifetime = lifetime_ok (parse_duration cfg.devid_lifetime) l;
            pins = (pins_ok cfg).0 p;
          },
          same_cfg,
        )
  ]

  check_usable : (cfg : MdsConfig) → IsUsable cfg → check parse_duration cfg ≡ loaded cfg
  unfolding check
  check_usable cfg u =
      let (d, t) = u.ttl in
      let (n, l, positive, bounded) = u.lifetime in
      rw (
        same_ne cfg.listen_addr [] u.listens,
        t,
        l,
        lifetime_ok_of n positive bounded,
        (pins_ok cfg).1 u.pins,
      )

  -- Load answers a configuration exactly if the file can be read, it is what the decoder makes of
  -- the file over the defaults, the listen address is not empty, the token lifetime parses, the
  -- certificate lifetime parses to a positive time of a year of hours at most, and where a cluster
  -- pin is required, the pin directory is set and no inventory file is.
  pub load_iff :
      (decode : Text → MdsConfig → Option MdsConfig) (file : Option Text) (cfg : MdsConfig)
      → load parse_duration decode file ≡ loaded cfg ↔ (
          (content : Text) × (file ≡ some content)
          × (decode content default_config ≡ some cfg)
          × IsUsable cfg)
  unfolding load
  load_iff decode none cfg = ((λ h. cc), (λ h. let (content, e, _, _) = h in cc))
  load_iff decode (some file) cfg = elim (Option-cases (decode file default_config)) [
    | inl e ↦ rw e (
      (λ h. cc),
      (λ h.
          let (content, f, d, _) = h in
          let k : file ≡ content = cc in absurd (cc (ap (λ c. decode c default_config) k))),
    )
    | inr (got, e) ↦ (
      (λ h.
          let (u, k) = check-loaded got cfg (rw e at h) in
          (file, refl, e ∙ ap some k, subst IsUsable k u)),
      (λ h.
          let (content, f, d, u) = h in
          let k : file ≡ content = cc in rw (k, d) (check_usable cfg u)),
    )
  ]
