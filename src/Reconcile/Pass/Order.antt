-- ===== src/Reconcile/Pass/Order.antt =====
-- The order of the writes for a cluster.
use vtpm_mds.Prelude.{
  ◌≡◌, ◌∙◌, refl, sym, ap, inl, inr, Bool, true, false, not, ◌||◌, List, [], ◌∷◌, map, keep, arith,
  Text, Bool-cases, All, All-imp,
}
use vtpm_mds.Reconcile.Diff.{Entry, Alias, Key, alias_key, has_key, match_loop, create_loop, diff}
use vtpm_mds.Reconcile.Diff.Counts.{count_key, kept_loop, count-kept_loop}
use vtpm_mds.Reconcile.Diff.Applied.{has_text, IsDistinct, delete_ids, delete_ids-kept}
use vtpm_mds.Reconcile.Bans.{has_name}
use vtpm_mds.Reconcile.Pass.{replaced_keys, is_colliding}

has_name-has_text : (t : Text) (l : List Text) → has_name t l ≡ has_text t l
unfolding has_name has_text
has_name-has_text t [] = refl
has_name-has_text t (u ∷ us) = rw (has_name-has_text t us) refl

-- What holds of a list and follows from a test holds of what passes the test.
pub All-keep_with :
    {A : Type 0} (P Q : A → Type 0) (p : A → Bool)
    → ((x : A) → p x ≡ true → P x → Q x)
    → (l : List A) → All P l
    → All Q (keep p l)
All-keep_with P Q p f [] h = tt
All-keep_with P Q p f (x ∷ xs) h = elim (Bool-cases (p x)) [
  | inl q ↦ rw q (f x q h.0, All-keep_with P Q p f xs h.1)
  | inr q ↦ rw q (All-keep_with P Q p f xs h.1)
]

module _ (td cluster : Text) where
  -- A key that is not replaced stands as often among the entries that are left.
  count-delete_ids :
      (k : Key) (del : List Text) (es : List Entry)
      → has_key k (replaced_keys del es) ≡ false
      → count_key td cluster k (delete_ids td cluster del es) ≡ count_key td cluster k es
  unfolding count_key delete_ids replaced_keys has_key
  count-delete_ids k del [] h = refl
  count-delete_ids k del (e ∷ es) h = elim (Bool-cases (has_text e.id del)) [
    | inr q ↦
        let left = rw (has_name-has_text e.id del, q) at h in
        rw q (ground (arith, count-delete_ids k del es left))
    | inl q ↦
        let left = rw (has_name-has_text e.id del, q) at h in
        rw q (ground (arith, left, count-delete_ids k del es))
  ]

  -- What is created is not matched.
  created-Unmatched :
      (matched done : List Key) (wanted : List Alias)
      → All
          (λ a. has_key (alias_key a) matched ≡ false)
          (create_loop td cluster matched done wanted)
  unfolding create_loop
  created-Unmatched matched done [] = tt
  created-Unmatched matched done (a ∷ rest) =
      elim (Bool-cases (has_key (alias_key a) matched || has_key (alias_key a) done)) [
        | inl skip ↦ rw skip (created-Unmatched matched done rest)
        | inr take ↦ rw take (ground arith, created-Unmatched matched (alias_key a ∷ done) rest)
      ]

  module _ (existing : List Entry) (wanted : List Alias) (distinct : IsDistinct existing) where
    abbrev deleted : List Text
    deleted = (diff td cluster existing wanted).1

    -- No managed entry that is left has the key of an alias to create.
    pub created_free :
        All
          (λ a. count_key td cluster (alias_key a) (delete_ids td cluster deleted existing) ≡ 0)
          (diff td cluster existing wanted).0
    unfolding diff
    created_free =
        let want = map alias_key wanted in
        let matched = (match_loop td cluster want [] existing).0 in
        All-imp
          (λ a free.
            ap (count_key td cluster (alias_key a))
              (delete_ids-kept td cluster want [] existing distinct)
            ∙ none_kept (alias_key a) free)
          (create_loop td cluster matched [] wanted) (created-Unmatched matched [] wanted)
      where
        none_kept :
            (k : Key)
            → has_key k (match_loop td cluster (map alias_key wanted) [] existing).0 ≡ false
            → count_key td cluster k (kept_loop td cluster (map alias_key wanted) [] existing) ≡ 0
        none_kept k free =
            ground (arith, free, count-kept_loop td cluster (map alias_key wanted) [] k existing)

    -- An alias that collides with no deletion is free before it.
    pub safe_free :
        All
          (λ a. count_key td cluster (alias_key a) existing ≡ 0)
          (keep (λ a. not (is_colliding deleted existing a)) (diff td cluster existing wanted).0)
    safe_free =
        All-keep_with _ _ _
          (λ a q z. sym (count-delete_ids (alias_key a) deleted existing (ground (arith, q))) ∙ z)
          (diff td cluster existing wanted).0 created_free
