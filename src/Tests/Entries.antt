-- ===== src/Tests/Entries.antt =====
-- A small cluster and the plan of internal/reconcile/diff.go.
use vtpm_mds.Prelude.{
  ◌≡◌, refl, true, List, [], ◌∷◌, keep, map, Text, codes, same, has_prefix, All, false, sort_texts,
}
use vtpm_mds.Reconcile.Diff.{
  Entry, Alias, alias_key, has_key, diff, is_managed, matches, match_loop, create_loop,
  selector_key,
}
use vtpm_mds.Reconcile.Wanted
use vtpm_mds.Reconcile.Wanted.{Guest, Cluster}
use vtpm_mds.Reconcile.Wanted.Inside.{wanted-IsInCluster}
use vtpm_mds.Reconcile.Diff.Counts.{count_key, one_if}
use vtpm_mds.Reconcile.Diff.Applied.{
  IsDistinct, IsInCluster, applied, unmanaged, has_text, diff_converges, diff_keeps_others,
}

abbrev td : Text
td = codes "example.org"

abbrev vm_350 : Alias
vm_350 = record {
  spiffe_id = codes "spiffe://example.org/pve/c1/vm/350";
  selectors = codes "tpm_devid:subject:cn:350" ∷ [];
}

abbrev stale : Entry
stale = record {
  id = codes "e1";
  parent_id = codes "spiffe://example.org/spire/server";
  spiffe_id = codes "spiffe://example.org/pve/c1/vm/349";
  selectors = codes "tpm_devid:subject:cn:349" ∷ [];
  default = true;
}

abbrev foreign : Entry
foreign = record {
  id = codes "e2";
  parent_id = codes "spiffe://example.org/spire/server";
  spiffe_id = codes "spiffe://example.org/web";
  selectors = codes "unix:uid:0" ∷ [];
  default = true;
}

abbrev existing : List Entry
existing = stale ∷ foreign ∷ []

abbrev wanted : List Alias
wanted = vm_350 ∷ vm_350 ∷ []

abbrev fresh_id : Alias → Text
fresh_id a = codes "e3"

existing-IsDistinct : IsDistinct existing
unfolding has_text same
existing-IsDistinct = (refl, (refl, tt))

inside : All (IsInCluster td (codes "c1")) wanted
unfolding has_prefix
inside = (refl, (refl, tt))

plan : diff td (codes "c1") existing wanted ≡ (vm_350 ∷ [], codes "e1" ∷ [])
unfolding diff match_loop create_loop matches is_managed has_key selector_key sort_texts has_prefix
    same
plan = refl

diff_converges_example :
    count_key td
      (codes "c1")
      (alias_key vm_350)
      (applied td (codes "c1") fresh_id existing (diff td (codes "c1") existing wanted))
    ≡ one_if (has_key (alias_key vm_350) (map alias_key wanted))
diff_converges_example =
    diff_converges td (codes "c1") fresh_id existing wanted (alias_key vm_350) existing-IsDistinct
      inside

diff_keeps_others_example :
    keep
      (unmanaged td (codes "c1"))
      (applied td (codes "c1") fresh_id existing (diff td (codes "c1") existing wanted))
    ≡ keep (unmanaged td (codes "c1")) existing
diff_keeps_others_example =
    diff_keeps_others td (codes "c1") fresh_id existing wanted existing-IsDistinct inside

abbrev cluster_1 : Cluster
cluster_1 = record { name = codes "c1"; fingerprints = codes "ab12" ∷ [] }

abbrev guest_350 : Guest
guest_350 = record {
  vmid = codes "350";
  pool = codes "Web";
  tags = codes "vtpm_mds.io.role.db;other";
  template = false;
}

wanted-IsInCluster_example :
    All (IsInCluster td (codes "c1")) (Wanted.wanted td cluster_1 (guest_350 ∷ [])).0
wanted-IsInCluster_example = wanted-IsInCluster td cluster_1 (guest_350 ∷ [])
