-- ===== src/Reconcile/Config/Apart.antt =====
-- The clusters of a configuration share no name and no certificate.
use vtpm_mds.Prelude.{
  ◌≡◌, ◌≢◌, ◌∙◌, refl, sym, ap, subst, inl, inr, false, not, ◌||◌, Option, none, some, List, [],
  ◌∷◌, Text, arith, same, same_iff, All, All-imp, Bool-cases, ltb, has_prefix, codes,
}
use vtpm_mds.Dict
use vtpm_mds.Dict.{Dict}
use vtpm_mds.Reconcile.Wanted.{valid_segment}
use vtpm_mds.Reconcile.Bans.{has_name}
use vtpm_mds.Reconcile.Config.{
  ClusterConfig, ReconcilerConfig, bad_name, min_interval, short_interval, relative_socket,
  no_socket, bad_trust_domain, repeated_name, accepted, Seen, cluster_error, cluster_step,
  with_files, cluster_loop, check_config, with_clusters, decoded_config, load_config,
}
use vtpm_mds.Reconcile.Config.Owners.{
  Grows, Owned, accepted-inj, bind_inv, passed, or_error_inv, some-inj, file_loop-Keeps,
}

-- Two clusters with other names and no fingerprint in common.
abbrev pub Differ : ClusterConfig → ClusterConfig → Type 0
Differ c d = (c.name ≢ d.name) × All (λ fp. has_name fp d.fingerprints ≡ false) c.fingerprints

-- Any two clusters of a list do.
abbrev pub IsApart : List ClusterConfig → Type 0
IsApart [] = Unit
IsApart (c ∷ cs) = All (Differ c) cs × IsApart cs

module _ (intermediate_fingerprint : Text → Option Text) where
  cluster_error_inv :
      (names : List Text) (c : ClusterConfig)
      → cluster_error names c ≡ none
      → has_name c.name names ≡ false
  unfolding cluster_error
  cluster_error_inv names c h = elim (Bool-cases (has_name c.name names)) [
    | inr t ↦ t
    | inl t ↦ elim (Bool-cases (valid_segment c.name)) [
      | inl v ↦ let no : some (repeated_name c.name) ≡ none = (rw (v, t) at h) in cc
      | inr v ↦ let no : some (bad_name c.name) ≡ none = (rw v at h) in cc
    ]
  ]

  cluster_step_inv :
      (names : List Text) (owners : Dict Text) (c : ClusterConfig) (s : Seen)
      → cluster_step intermediate_fingerprint names owners c ≡ accepted s
      → (has_name c.name names ≡ false) × Grows owners s.owners × Owned c.name s.owners s.fps
  unfolding cluster_step
  cluster_step_inv names owners c s h =
      let (free, run) = or_error_inv (cluster_error names c) _ s h in
      let (grows, owned) =
        file_loop-Keeps intermediate_fingerprint c.name c.intermediates _ s tt run in
      (cluster_error_inv names c free, grows, owned)

  -- A cluster has a new name, and no fingerprint with another owner.
  abbrev IsNew : List Text → Dict Text → ClusterConfig → Type 0
  IsNew names owners d =
      (has_name d.name names ≡ false)
      × All (λ fp. (n : Text) → Dict.get fp owners ≡ some n → n ≡ d.name) d.fingerprints

  owned_new :
      (name : Text) (o o' : Dict Text) (fps : List Text)
      → Grows o o'
      → Owned name o' fps
      → All (λ fp. (n : Text) → Dict.get fp o ≡ some n → n ≡ name) fps
  owned_new name o o' [] g h = tt
  owned_new name o o' (fp ∷ fps) g h =
      ((λ n e. some-inj (sym (g fp n e) ∙ h.0)), owned_new name o o' fps g h.1)

  IsNew-before :
      (name : Text) (names : List Text) (o o' : Dict Text) (d : ClusterConfig)
      → Grows o o'
      → IsNew (name ∷ names) o' d
      → IsNew names o d
  unfolding has_name
  IsNew-before name names o o' d g (free, allowed) =
      (ground (arith, free), earlier d.fingerprints allowed)
    where
      earlier :
          (fps : List Text)
          → All (λ fp. (n : Text) → Dict.get fp o' ≡ some n → n ≡ d.name) fps
          → All (λ fp. (n : Text) → Dict.get fp o ≡ some n → n ≡ d.name) fps
      earlier [] a = tt
      earlier (fp ∷ fps) a = ((λ n e. a.0 n (g fp n e)), earlier fps a.1)

  -- A fingerprint that a cluster of this name owns is no fingerprint of a cluster with another name.
  foreign_fp :
      (name other fp : Text) (o : Dict Text) (fps : List Text)
      → Dict.get fp o ≡ some name
      → name ≢ other
      → All (λ f. (n : Text) → Dict.get f o ≡ some n → n ≡ other) fps
      → has_name fp fps ≡ false
  unfolding has_name
  foreign_fp name other fp o [] e w a = refl
  foreign_fp name other fp o (f ∷ fps) e w a = elim (Bool-cases (same f fp)) [
    | inl t ↦ absurd (w (a.0 name (ap (λ i. Dict.get i o) ((same_iff f fp).0 t) ∙ e)))
    | inr t ↦ rw t (foreign_fp name other fp o fps e w a.1)
  ]

  new-Differ :
      (c d : ClusterConfig) (names : List Text) (o : Dict Text)
      → Owned c.name o c.fingerprints
      → IsNew (c.name ∷ names) o d
      → Differ c d
  unfolding has_name
  new-Differ c d names o owned (free, allowed) = (w, apart c.fingerprints owned)
    where
      w : c.name ≢ d.name
      w e = absurd (ground (arith, free, (same_iff c.name d.name).1 e))

      apart :
          (fps : List Text)
          → Owned c.name o fps
          → All (λ fp. has_name fp d.fingerprints ≡ false) fps
      apart [] h = tt
      apart (fp ∷ fps) h =
          (foreign_fp c.name d.name fp o d.fingerprints h.0 w allowed, apart fps h.1)

  cluster_loop-IsApart :
      (names : List Text) (owners : Dict Text) (cs ds : List ClusterConfig)
      → cluster_loop intermediate_fingerprint names owners cs ≡ accepted ds
      → All (IsNew names owners) ds × IsApart ds
  unfolding cluster_loop
  cluster_loop-IsApart names owners [] ds h =
      subst (λ l. All (IsNew names owners) l × IsApart l) (accepted-inj h) (tt, tt)
  cluster_loop-IsApart names owners (c ∷ cs) ds h =
      let (s, step, more) =
        bind_inv (cluster_step intermediate_fingerprint names owners c) _ ds h in
      let (rest, loop, last) =
        bind_inv (cluster_loop intermediate_fingerprint (c.name ∷ names) s.owners cs) _ ds more in
      let (free, grows, owned) = cluster_step_inv names owners c s step in
      let (new, apart) = cluster_loop-IsApart (c.name ∷ names) s.owners cs rest loop in
      subst (λ l. All (IsNew names owners) l × IsApart l) (accepted-inj last)
        (
          (
            (free, owned_new c.name owners s.owners s.fps grows owned),
            All-imp (λ d. IsNew-before c.name names owners s.owners d grows) rest new,
          ),
          (All-imp (λ d. new-Differ (with_files c s) d names s.owners owned) rest new, apart),
        )

  with_clusters-IsApart :
      (cfg cfg' : ReconcilerConfig) (cs : List ClusterConfig)
      → with_clusters intermediate_fingerprint cfg cs ≡ accepted cfg'
      → IsApart cfg'.clusters
  unfolding with_clusters
  with_clusters-IsApart cfg cfg' [] h = cc
  with_clusters-IsApart cfg cfg' (c ∷ cs) h =
      let (ds, loop, last) =
        bind_inv (cluster_loop intermediate_fingerprint [] [] (c ∷ cs)) _ cfg' h in
      subst (λ (r : ReconcilerConfig). IsApart r.clusters) (accepted-inj last)
        (cluster_loop-IsApart [] [] (c ∷ cs) ds loop).1

  check_config-IsApart :
      (cfg cfg' : ReconcilerConfig)
      → check_config intermediate_fingerprint cfg ≡ accepted cfg'
      → IsApart cfg'.clusters
  unfolding check_config
  check_config-IsApart cfg cfg' h = with_clusters-IsApart cfg cfg' cfg.clusters (
      passed (ltb cfg.interval min_interval) short_interval _ (
        passed (not (has_prefix (codes "/") cfg.spire_socket)) relative_socket _ (
          passed (same cfg.spire_socket []) no_socket _ (
            passed (same cfg.trust_domain [] || not (valid_segment cfg.trust_domain))
              bad_trust_domain _ h))))

  -- Any two clusters of a configuration that LoadConfig accepts have other names and no fingerprint
  -- in common.
  pub load_config-IsApart :
      (decode : Text → Option ReconcilerConfig) (file : Option Text) (cfg : ReconcilerConfig)
      → load_config intermediate_fingerprint decode file ≡ accepted cfg
      → IsApart cfg.clusters
  unfolding load_config
  load_config-IsApart decode none cfg h = cc
  load_config-IsApart decode (some text) cfg h = decoded (decode text) h
    where
      decoded :
          (o : Option ReconcilerConfig)
          → decoded_config intermediate_fingerprint o ≡ accepted cfg
          → IsApart cfg.clusters
      decoded none h = cc
      decoded (some c) h = check_config-IsApart _ cfg h
