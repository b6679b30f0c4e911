-- ===== src/Reconcile/Config.antt =====
-- LoadConfig of internal/reconcile/config.go. The YAML decoder is an argument, and so is
-- intermediateFingerprint, which reads a file and its certificate. Intervals are not negative.
pub mod Owners
pub mod Apart
use vtpm_mds.Prelude.{
  ℕ, ◌*◌, Bool, true, false, not, ◌||◌, ◌==◌, ltb, if◌then◌else◌, Option, none, some, List, [], ◌∷◌,
  ◌++◌, Text, codes, same, has_prefix,
}
use vtpm_mds.Dict
use vtpm_mds.Dict.{Dict}
use vtpm_mds.Reconcile.Wanted.{valid_segment}
use vtpm_mds.Reconcile.Bans.{has_name}

-- Nanoseconds
abbrev pub default_interval : ℕ
default_interval = 60 * 1000000000

abbrev pub min_interval : ℕ
min_interval = 10 * 1000000000

pub record ClusterConfig : Type 0 where
  pub name : Text
  pub api_url : Text
  pub ca_file : Text
  pub token_file : Text
  pub intermediates : List Text
  pub fingerprints : List Text

pub record ReconcilerConfig : Type 0 where
  pub trust_domain : Text
  pub spire_socket : Text
  pub interval : ℕ
  pub clusters : List ClusterConfig

pub data LoadError : Type 0 where
  unreadable undecodable bad_trust_domain no_socket relative_socket short_interval no_clusters :
      LoadError
  bad_name repeated_name bad_api_url no_token_file no_intermediates : Text → LoadError
  bad_intermediate : Text → Text → LoadError
  shared_fingerprint : Text → Text → Text → Text → LoadError

pub data Checked {ℓ} (A : Type ℓ) : Type ℓ where
  accepted : A → Checked A
  rejected : LoadError → Checked A

infixl 5 ◌>>=◌
abbrev pub ◌>>=◌ {ℓ κ} : {A : Type ℓ} {B : Type κ} → Checked A → (A → Checked B) → Checked B
accepted a >>= f = f a
rejected e >>= f = rejected e

-- seenFile, files, c.Fingerprints, which holds what seenFP does, and fpOwner.
pub record Seen : Type 0 where
  pub seen : List Text
  pub files : List Text
  pub fps : List Text
  pub owners : Dict Text

abbrev pub other_owner : Text → Option Text → Option Text
other_owner name none = none
other_owner name (some other) = if not (same other name) then some other else none

-- A fingerprint that is new to the cluster, of a file.
unfoldable pub own_fingerprint : Text → Text → Text → Seen → Option Text → Checked Seen
own_fingerprint name file fp s (some other) = rejected (shared_fingerprint fp file other name)
own_fingerprint name file fp s none = accepted (record {
  seen = file ∷ s.seen;
  files = s.files ++ file ∷ [];
  fps = s.fps ++ fp ∷ [];
  owners = Dict.put fp name s.owners;
})

unfoldable pub file_fingerprint : Text → Text → Seen → Option Text → Checked Seen
unfolding own_fingerprint
file_fingerprint name file s none = rejected (bad_intermediate name file)
file_fingerprint name file s (some fp) =
    if has_name fp s.fps
    then accepted (record s { seen = file ∷ s.seen })
    else own_fingerprint name file fp s (other_owner name (Dict.get fp s.owners))

-- The tests of a cluster before its certificates are read.
unfoldable pub cluster_error : List Text → ClusterConfig → Option LoadError
cluster_error names c =
    if not (valid_segment c.name)
    then some (bad_name c.name)
    else if has_name c.name names
    then some (repeated_name c.name)
    else if not (has_prefix (codes "https://") c.api_url)
    then some (bad_api_url c.name)
    else if same c.token_file []
    then some (no_token_file c.name)
    else elim c.intermediates [ [] ↦ some (no_intermediates c.name) | f ∷ fs ↦ none ]

abbrev pub or_error : Option LoadError → Checked Seen → Checked Seen
or_error (some e) next = rejected e
or_error none next = next

abbrev pub with_files : ClusterConfig → Seen → ClusterConfig
with_files c s = record c { intermediates = s.files; fingerprints = s.fps }

module _ (intermediate_fingerprint : Text → Option Text) where
  unfoldable pub file_step : Text → Text → Seen → Checked Seen
  unfolding file_fingerprint
  file_step name file s =
      if has_name file s.seen
      then accepted s
      else file_fingerprint name file s (intermediate_fingerprint file)

  unfoldable pub file_loop : Text → List Text → Seen → Checked Seen
  unfolding file_step
  file_loop name [] s = accepted s
  file_loop name (file ∷ files) s = file_step name file s >>= file_loop name files

  unfoldable pub cluster_step : List Text → Dict Text → ClusterConfig → Checked Seen
  unfolding cluster_error file_loop
  cluster_step names owners c = or_error (cluster_error names c) (
      file_loop c.name c.intermediates
        (record { seen = []; files = []; fps = []; owners = owners }))

  -- The loop over the clusters, with `names` and `fpOwner`.
  unfoldable pub cluster_loop :
      List Text → Dict Text → List ClusterConfig → Checked (List ClusterConfig)
  unfolding cluster_step
  cluster_loop names owners [] = accepted []
  cluster_loop names owners (c ∷ cs) = cluster_step names owners c >>= λ s.
      cluster_loop (c.name ∷ names) s.owners cs >>= λ rest. accepted (with_files c s ∷ rest)

  unfoldable pub with_clusters : ReconcilerConfig → List ClusterConfig → Checked ReconcilerConfig
  unfolding cluster_loop
  with_clusters cfg [] = rejected no_clusters
  with_clusters cfg (c ∷ cs) =
      cluster_loop [] [] (c ∷ cs) >>= λ clusters. accepted (record cfg { clusters = clusters })

  unfoldable pub check_config : ReconcilerConfig → Checked ReconcilerConfig
  unfolding with_clusters
  check_config cfg =
      if same cfg.trust_domain [] || not (valid_segment cfg.trust_domain)
      then rejected bad_trust_domain
      else if same cfg.spire_socket []
      then rejected no_socket
      else if not (has_prefix (codes "/") cfg.spire_socket)
      then rejected relative_socket
      else if ltb cfg.interval min_interval
      then rejected short_interval
      else with_clusters cfg cfg.clusters

  abbrev default_if_zero : ReconcilerConfig → ReconcilerConfig
  default_if_zero cfg = record cfg {
    interval = if cfg.interval == 0 then default_interval else cfg.interval;
  }

  abbrev pub decoded_config : Option ReconcilerConfig → Checked ReconcilerConfig
  decoded_config none = rejected undecodable
  decoded_config (some cfg) = check_config (default_if_zero cfg)

  -- LoadConfig
  unfoldable pub load_config :
      (Text → Option ReconcilerConfig) → Option Text → Checked ReconcilerConfig
  unfolding check_config
  load_config decode none = rejected unreadable
  load_config decode (some text) = decoded_config (decode text)
