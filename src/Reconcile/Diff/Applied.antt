-- ===== src/Reconcile/Diff/Applied.antt =====
-- A plan of Diff of internal/reconcile/diff.go, applied to the entries it was made for.
use vtpm_mds.Prelude.{
  ◌≡◌, ◌+◌, refl, ap, ◌∙◌, inl, inr, Bool, true, false, not, ◌||◌, List, [], ◌∷◌, ◌++◌, map, keep,
  keep-append, arith, if◌then◌else◌, Text, same, same_refl, same_sym, has_prefix, Bool-cases, All,
}
use mathlib.Core.List.{append-nil}
use vtpm_mds.Reconcile.Diff.{
  Entry, Alias, Key, entry_key, alias_key, has_key, is_managed, matches, mark, match_loop,
  create_loop, parent_of, prefix_of, diff,
}
use vtpm_mds.Reconcile.Diff.Counts.{
  one_if, count_key, count_alias, stays, next_matched, match_deleted, kept_loop, count-kept_loop,
  matched_wanted, count-create_loop,
}

unfoldable pub has_text : Text → List Text → Bool
has_text t [] = false
has_text t (u ∷ us) = same u t || has_text t us

abbrev pub ids : List Entry → List Text
ids = map (λ e. e.id)

-- Every entry has its own identifier.
abbrev pub IsDistinct : List Entry → Type 0
IsDistinct [] = Unit
IsDistinct (e ∷ es) = (has_text e.id (ids es) ≡ false) × IsDistinct es

module _ (td cluster : Text) where
  -- The entry that the server makes for an alias.
  abbrev pub entry_of : (Alias → Text) → Alias → Entry
  entry_of fresh a = record {
    id = fresh a;
    parent_id = parent_of td;
    spiffe_id = a.spiffe_id;
    selectors = a.selectors;
    default = true;
  }

  unfoldable pub delete_ids : List Text → List Entry → List Entry
  delete_ids del [] = []
  delete_ids del (e ∷ es) =
      let rest = delete_ids del es in if has_text e.id del then rest else e ∷ rest

  -- The entries after the plan: those that it deletes are gone, those that it creates are there.
  abbrev pub applied : (Alias → Text) → List Entry → List Alias × List Text → List Entry
  applied fresh existing (create, del) = delete_ids del existing ++ map (entry_of fresh) create

  -- A plan deletes listed entries only.
  deletes_listed :
      (want matched : List Key) (es : List Entry) (t : Text)
      → has_text t (match_loop td cluster want matched es).1 ≡ true
      → has_text t (ids es) ≡ true
  unfolding match_loop has_text
  deletes_listed want matched [] t h = h
  deletes_listed want matched (e ∷ es) t h =
      elim (Bool-cases (not (is_managed td cluster e) || matches td cluster want matched e)) [
        | inl stays ↦ ground (
          arith,
          rw stays at h,
          deletes_listed want
              (mark td cluster (matches td cluster want matched e) (entry_key e) matched) es t,
        )
        | inr goes ↦ ground (
          arith,
          rw goes at h,
          deletes_listed want
              (mark td cluster (matches td cluster want matched e) (entry_key e) matched) es t,
        )
      ]

  delete_absent :
      (t : Text) (del : List Text) (es : List Entry)
      → has_text t (ids es) ≡ false
      → delete_ids (t ∷ del) es ≡ delete_ids del es
  unfolding delete_ids has_text
  delete_absent t del [] h = refl
  delete_absent t del (e ∷ es) h = ground (arith, delete_absent t del es, h, same_sym t e.id)

  delete_none : (del : List Text) → delete_ids del [] ≡ []
  unfolding delete_ids
  delete_none del = refl

  none_matched : (k : Key) → has_key k [] ≡ false
  unfolding has_key
  none_matched k = refl

  delete_first :
      (b : Bool) (del : List Text) (e : Entry) (es : List Entry)
      → has_text e.id (ids es) ≡ false
      → (has_text e.id del ≡ true → has_text e.id (ids es) ≡ true)
      → delete_ids (if b then del else e.id ∷ del) (e ∷ es)
        ≡ (if b then e ∷ delete_ids del es else delete_ids del es)
  unfolding delete_ids has_text
  delete_first true del e es new listed = ground (arith, new, listed)
  delete_first false del e es new listed = rw (same_refl e.id, delete_absent e.id del es new) refl

  -- Deleting by identifier leaves what the loop keeps.
  pub delete_ids-kept :
      (want matched : List Key) (es : List Entry)
      → IsDistinct es
      → delete_ids (match_loop td cluster want matched es).1 es
        ≡ kept_loop td cluster want matched es
  unfolding kept_loop
  delete_ids-kept want matched [] h = delete_none (match_loop td cluster want matched []).1
  delete_ids-kept want matched (e ∷ es) h =
      let next = next_matched td cluster want matched e in
      ap (λ del. delete_ids del (e ∷ es)) (match_deleted td cluster want matched e es)
      ∙ delete_first (stays td cluster want matched e) (match_loop td cluster want next es).1 e es
          h.0 (deletes_listed want next es e.id)
      ∙ ap (λ rest. if stays td cluster want matched e then e ∷ rest else rest)
          (delete_ids-kept want next es h.1)

  pub count-append :
      (k : Key) (l r : List Entry)
      → count_key td cluster k (l ++ r) ≡ count_key td cluster k l + count_key td cluster k r
  unfolding count_key
  count-append k [] r = omega arith
  count-append k (a ∷ l) r = ground (arith, count-append k l r)

  abbrev pub IsInCluster : Alias → Type 0
  IsInCluster a = has_prefix (prefix_of td cluster) a.spiffe_id ≡ true

  entry_of-is_managed :
      (fresh : Alias → Text) (a : Alias)
      → IsInCluster a
      → is_managed td cluster (entry_of fresh a) ≡ true
  unfolding is_managed
  entry_of-is_managed fresh a h = rw (same_refl (parent_of td), h) refl

  count-created :
      (k : Key) (fresh : Alias → Text) (wanted : List Alias)
      → All IsInCluster wanted
      → count_key td cluster k (map (entry_of fresh) wanted) ≡ count_alias td cluster k wanted
  unfolding count_key
  count-created k fresh [] h = refl
  count-created k fresh (a ∷ rest) h =
      rw (entry_of-is_managed fresh a h.0, count-created k fresh rest h.1) refl

  created-All :
      (matched done : List Key) (wanted : List Alias)
      → All IsInCluster wanted
      → All IsInCluster (create_loop td cluster matched done wanted)
  unfolding create_loop
  created-All matched done [] h = tt
  created-All matched done (a ∷ rest) h =
      elim (Bool-cases (has_key (alias_key a) matched || has_key (alias_key a) done)) [
        | inl skip ↦ rw skip (created-All matched done rest h.1)
        | inr take ↦ rw take (h.0, created-All matched (alias_key a ∷ done) rest h.1)
      ]

  -- If every existing entry has its own ID and every wanted alias lies under the cluster's prefix,
  -- then after the deletions and creations of the plan each wanted key stands exactly once among
  -- the cluster's entries, and every other key not at all.
  pub diff_converges :
      (fresh : Alias → Text) (existing : List Entry) (wanted : List Alias) (k : Key)
      → IsDistinct existing
      → All IsInCluster wanted
      → count_key td cluster k (applied fresh existing (diff td cluster existing wanted))
        ≡ one_if (has_key k (map alias_key wanted))
  unfolding diff
  diff_converges fresh existing wanted k distinct inside =
      let want = map alias_key wanted in
      let matched = (match_loop td cluster want [] existing).0 in
      count-append k (delete_ids (match_loop td cluster want [] existing).1 existing) _
      ∙ ground (
        arith,
        ap (count_key td cluster k) (delete_ids-kept want [] existing distinct),
        count-created k fresh (create_loop td cluster matched [] wanted)
            (created-All matched [] wanted inside),
        count-kept_loop td cluster want [] k existing,
        matched_wanted td cluster want [] existing k
            (λ j q. absurd (ground (arith, none_matched j, q))),
        count-create_loop td cluster matched [] k wanted,
        none_matched k,
      )

  unfoldable pub unmanaged : Entry → Bool
  unmanaged e = not (is_managed td cluster e)

  kept_unmanaged :
      (want matched : List Key) (es : List Entry)
      → keep unmanaged (kept_loop td cluster want matched es) ≡ keep unmanaged es
  unfolding kept_loop unmanaged
  kept_unmanaged want matched [] = refl
  kept_unmanaged want matched (e ∷ es) =
      ground (arith, kept_unmanaged want (next_matched td cluster want matched e) es)

  created_managed :
      (fresh : Alias → Text) (wanted : List Alias)
      → All IsInCluster wanted
      → keep unmanaged (map (entry_of fresh) wanted) ≡ []
  unfolding unmanaged
  created_managed fresh [] h = refl
  created_managed fresh (a ∷ rest) h =
      rw (entry_of-is_managed fresh a h.0) (created_managed fresh rest h.1)

  -- If every existing entry has its own ID and every wanted alias lies under the cluster's prefix,
  -- then the plan leaves the entries that have another parent or lie outside the prefix as they
  -- are, in their order.
  pub diff_keeps_others :
      (fresh : Alias → Text) (existing : List Entry) (wanted : List Alias)
      → IsDistinct existing
      → All IsInCluster wanted
      → keep unmanaged (applied fresh existing (diff td cluster existing wanted))
        ≡ keep unmanaged existing
  unfolding diff
  diff_keeps_others fresh existing wanted distinct inside =
      let want = map alias_key wanted in
      let matched = (match_loop td cluster want [] existing).0 in
      keep-append unmanaged (delete_ids (match_loop td cluster want [] existing).1 existing) _
      ∙ rw
          (
            delete_ids-kept want [] existing distinct,
            kept_unmanaged want [] existing,
            created_managed fresh (create_loop td cluster matched [] wanted)
                (created-All matched [] wanted inside),
            append-nil (keep unmanaged existing),
          )
          refl
