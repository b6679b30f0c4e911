-- ===== src/Tests/Clusters.antt =====
-- A configuration of two clusters.
use vtpm_mds.Prelude.{◌≡◌, refl, Option, some, List, [], ◌∷◌, Text, codes, same, has_prefix}
use vtpm_mds.Dict
use vtpm_mds.Reconcile.Wanted.{valid_segment}
use vtpm_mds.Reconcile.Bans.{has_name}
use vtpm_mds.Reconcile.Config.{
  ClusterConfig, ReconcilerConfig, accepted, rejected, shared_fingerprint, load_config,
  check_config, with_clusters, cluster_loop, cluster_step, cluster_error, file_loop, file_step,
  file_fingerprint, own_fingerprint, default_interval,
}
use vtpm_mds.Reconcile.Config.Apart.{IsApart, load_config-IsApart}

abbrev cluster : Text → Text → List Text → ClusterConfig
cluster name file fps = record {
  name = name;
  api_url = codes "https://a";
  ca_file = [];
  token_file = codes "t";
  intermediates = file ∷ [];
  fingerprints = fps;
}

abbrev config : List ClusterConfig → ReconcilerConfig
config clusters = record {
  trust_domain = codes "d";
  spire_socket = codes "/s";
  interval = default_interval;
  clusters = clusters;
}

abbrev fingerprint : Text → Option Text
fingerprint file = some file

abbrev two : List ClusterConfig
two = cluster (codes "a") (codes "f") [] ∷ cluster (codes "b") (codes "g") [] ∷ []

abbrev two_read : List ClusterConfig
two_read =
    cluster (codes "a") (codes "f") (codes "f" ∷ [])
    ∷ cluster (codes "b") (codes "g") (codes "g" ∷ [])
    ∷ []

loads : load_config fingerprint (λ text. some (config two)) (some []) ≡ accepted (config two_read)
unfolding load_config check_config with_clusters cluster_loop cluster_step cluster_error file_loop
    file_step file_fingerprint own_fingerprint valid_segment has_name same has_prefix Dict.get
    Dict.put
loads = refl

refuses_shared :
    load_config (λ file. some (codes "x")) (λ text. some (config two)) (some [])
    ≡ rejected (shared_fingerprint (codes "x") (codes "g") (codes "a") (codes "b"))
unfolding load_config check_config with_clusters cluster_loop cluster_step cluster_error file_loop
    file_step file_fingerprint own_fingerprint valid_segment has_name same has_prefix Dict.get
    Dict.put
refuses_shared = refl

load_config-IsApart_example : IsApart (config two_read).clusters
load_config-IsApart_example =
    load_config-IsApart fingerprint (λ text. some (config two)) (some []) (config two_read) loads
