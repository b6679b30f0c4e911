-- ===== src/Tests/Passes.antt =====
-- A pass over two clusters, one of which cannot be read.
use vtpm_mds.Prelude.{◌≡◌, refl, true, false, none, some, [], ◌∷◌, keep, Text, codes, List, ◌++◌}
use vtpm_mds.Reconcile.Diff.{Entry}
use vtpm_mds.Reconcile.Diff.Applied.{has_text, IsDistinct}
use vtpm_mds.Reconcile.Pass.{Target, SpireApi, PassState, pass, Call, align}
use vtpm_mds.Reconcile.Pass.Doubtful.{Skips, doubtful, is_read, pass-Skips}
use vtpm_mds.Reconcile.Wanted.{Guest, Cluster}
use vtpm_mds.Reconcile.Pass.Writes.{calls_of, IsOrdered, align-IsOrdered}

abbrev td : Text
td = codes "t"

abbrev unread : Target
unread = record { cluster = record { name = codes "b"; fingerprints = [] }; read = none }

abbrev empty : Target
empty = record {
  cluster = record { name = codes "a"; fingerprints = codes "f1" ∷ [] };
  read = some [];
}

abbrev server : SpireApi
server = record { entries = some []; agents = some []; accepts = λ calls c. true }

counts_one : doubtful (unread ∷ empty ∷ []) ≡ 1
unfolding doubtful is_read
counts_one = refl

pass-Skips_example :
    Skips 0
      (doubtful (unread ∷ empty ∷ []))
      (pass server td true [] (unread ∷ empty ∷ []))
      (pass server td true [] (keep is_read (unread ∷ empty ∷ [])))
pass-Skips_example = pass-Skips server td true [] (unread ∷ empty ∷ [])

-- An entry for the alias of the guest, which was edited by hand.
abbrev edited : Entry
edited = record {
  id = codes "e1";
  parent_id = codes "spiffe://t/spire/server";
  spiffe_id = codes "spiffe://t/pve/a/vm/1";
  selectors = codes "tpm_devid:ca:fingerprint:f1" ∷ codes "tpm_devid:subject:cn:1" ∷ [];
  default = false;
}

alone : IsDistinct (edited ∷ [])
unfolding has_text
alone = (refl, tt)

abbrev cluster : Cluster
cluster = record { name = codes "a"; fingerprints = codes "f1" ∷ [] }

abbrev guests : List Guest
guests = record { vmid = codes "1"; pool = []; tags = []; template = false } ∷ []

abbrev listed_one : PassState
listed_one = record {
  entries = some (edited ∷ []);
  agents = none;
  misses = [];
  skipped = 0;
  calls = [];
}

align-IsOrdered_example :
    (news : List Call) × (calls_of (align server td cluster guests listed_one) ≡ [] ++ news)
    × IsOrdered td (codes "a") (λ a. codes "new") (edited ∷ []) (edited ∷ [], false) news
align-IsOrdered_example =
    align-IsOrdered td cluster (λ a. codes "new") server guests listed_one alone
