-- ===== src/Reconcile/Diff/Counts.antt =====
-- How often each key stands among the entries, before and after Diff of internal/reconcile/diff.go.
use vtpm_mds.Prelude.{
  ℕ, ◌≡◌, ◌↔◌, ◌+◌, refl, sym, ap, ◌∙◌, inl, inr, Bool, true, false, not, ◌&&◌, ◌||◌, List, [], ◌∷◌,
  map, arith, if◌then◌else◌, Text, same_iff, Bool-cases, subst,
}
use vtpm_mds.Reconcile.Diff.{
  Entry, Alias, Key, entry_key, alias_key, same_key, has_key, is_managed, matches, mark, match_loop,
  create_loop,
}

pub same_key_iff : (j k : Key) → (same_key j k ≡ true) ↔ (j ≡ k)
same_key_iff (a, s) (b, t) = ground (arith, same_iff a b, same_iff s t)

abbrev pub one_if : Bool → ℕ
one_if true = 1
one_if false = 0

module _ (td cluster : Text) where
  -- The entries with a key that Diff looks at.
  unfoldable pub count_key : Key → List Entry → ℕ
  count_key k [] = 0
  count_key k (e ∷ es) =
      one_if (is_managed td cluster e && same_key (entry_key e) k) + count_key k es

  -- The entries that the loop leaves.
  unfoldable pub kept_loop : List Key → List Key → List Entry → List Entry
  unfolding matches
  kept_loop want matched [] = []
  kept_loop want matched (e ∷ es) =
      let rest =
        kept_loop want (mark td cluster (matches td cluster want matched e) (entry_key e) matched)
          es in
      if not (is_managed td cluster e) || matches td cluster want matched e then e ∷ rest else rest

  pub matches_elim :
      (want matched : List Key) (e : Entry)
      → matches td cluster want matched e ≡ true
      → (is_managed td cluster e ≡ true)
        × (e.default ≡ true)
        × (has_key (entry_key e) want ≡ true)
        × (has_key (entry_key e) matched ≡ false)
  unfolding matches
  matches_elim want matched e h = ground (arith, h)

  -- The kept entries make up the keys that the loop adds to the matched ones.
  pub count-kept_loop :
      (want matched : List Key) (k : Key) (es : List Entry)
      → count_key k (kept_loop want matched es) + one_if (has_key k matched)
        ≡ one_if (has_key k (match_loop td cluster want matched es).0)
  unfolding count_key kept_loop match_loop has_key
  count-kept_loop want matched k [] = omega arith
  count-kept_loop want matched k (e ∷ es) = elim (Bool-cases (matches td cluster want matched e)) [
    | inl hit ↦
        let (managed, default, wanted, free) = matches_elim want matched e hit in
        rw hit (
          ground (
            arith,
            managed,
            free,
            same_key_iff (entry_key e) k,
            ap (λ x. has_key x matched) {x = entry_key e} {y = k},
            count-kept_loop want (entry_key e ∷ matched) k es,
          ))
    | inr miss ↦ rw miss (ground (arith, count-kept_loop want matched k es))
  ]

  abbrev pair_if : Bool → List Key → List Text → List Text → List Key × List Text
  pair_if b x y z = if b then (x, y) else (x, z)

  first_of_if : (b : Bool) (x : List Key) (y z : List Text) → (pair_if b x y z).0 ≡ x
  first_of_if true x y z = refl
  first_of_if false x y z = refl

  second_of_if :
      (b : Bool) (x : List Key) (y z : List Text) → (pair_if b x y z).1 ≡ (if b then y else z)
  second_of_if true x y z = refl
  second_of_if false x y z = refl

  -- An entry is left where Diff does not look at it, or it matches.
  abbrev pub stays : List Key → List Key → Entry → Bool
  stays want matched e = not (is_managed td cluster e) || matches td cluster want matched e

  abbrev pub next_matched : List Key → List Key → Entry → List Key
  next_matched want matched e =
      mark td cluster (matches td cluster want matched e) (entry_key e) matched

  pub match_deleted :
      (want matched : List Key) (e : Entry) (es : List Entry)
      → (match_loop td cluster want matched (e ∷ es)).1 ≡ (
          if stays want matched e
          then (match_loop td cluster want (next_matched want matched e) es).1
          else e.id ∷ (match_loop td cluster want (next_matched want matched e) es).1)
  unfolding match_loop
  match_deleted want matched e es = second_of_if (stays want matched e) _ _ _

  match_final_nil : (want matched : List Key) → (match_loop td cluster want matched []).0 ≡ matched
  unfolding match_loop
  match_final_nil want matched = refl

  match_final :
      (want matched : List Key) (e : Entry) (es : List Entry)
      → (match_loop td cluster want matched (e ∷ es)).0
        ≡ (match_loop td cluster want
            (mark td cluster (matches td cluster want matched e) (entry_key e) matched)
            es).0
  unfolding match_loop
  match_final want matched e es =
      first_of_if (not (is_managed td cluster e) || matches td cluster want matched e) _ _ _

  -- Only wanted keys are matched.
  pub matched_wanted :
      (want matched : List Key) (es : List Entry) (k : Key)
      → ((j : Key) → has_key j matched ≡ true → has_key j want ≡ true)
      → has_key k (match_loop td cluster want matched es).0 ≡ true
      → has_key k want ≡ true
  unfolding has_key
  matched_wanted want matched [] k sub h =
      sub k (ap (has_key k) (sym (match_final_nil want matched)) ∙ h)
  matched_wanted want matched (e ∷ es) k sub h =
      elim (Bool-cases (matches td cluster want matched e)) [
        | inl hit ↦
            matched_wanted want (entry_key e ∷ matched) es k
              (marked (matches_elim want matched e hit).2) (same_final true hit h)
        | inr miss ↦ matched_wanted want matched es k sub (same_final false miss h)
      ]
    where
      marked :
          has_key (entry_key e) want ≡ true
          → (j : Key) → has_key j (entry_key e ∷ matched) ≡ true
          → has_key j want ≡ true
      marked wanted j q = ground (
        arith,
        q,
        sub j,
        wanted,
        same_key_iff (entry_key e) j,
        ap (λ x. has_key x want) {x = entry_key e} {y = j},
      )

      same_final :
          (b : Bool)
          → matches td cluster want matched e ≡ b
          → has_key k (match_loop td cluster want matched (e ∷ es)).0 ≡ true
          → has_key k (match_loop td cluster want (mark td cluster b (entry_key e) matched) es).0
            ≡ true
      same_final b q h =
          subst
            (λ x.
              has_key k (match_loop td cluster want (mark td cluster x (entry_key e) matched) es).0
              ≡ true)
            q (ap (has_key k) (sym (match_final want matched e es)) ∙ h)

  abbrev pub count_alias : Key → List Alias → ℕ
  count_alias k [] = 0
  count_alias k (a ∷ rest) = one_if (same_key (alias_key a) k) + count_alias k rest

  -- The created aliases are the wanted keys that are not matched, each once.
  pub count-create_loop :
      (matched done : List Key) (k : Key) (wanted : List Alias)
      → count_alias k (create_loop td cluster matched done wanted)
        ≡ one_if (has_key k (map alias_key wanted) && not (has_key k matched || has_key k done))
  unfolding create_loop has_key
  count-create_loop matched done k [] = refl
  count-create_loop matched done k (a ∷ rest) =
      elim (Bool-cases (has_key (alias_key a) matched || has_key (alias_key a) done)) [
        | inl skip ↦ rw skip (
            ground (
              arith,
              skip,
              same_key_iff (alias_key a) k,
              ap (λ x. has_key x matched) {x = alias_key a} {y = k},
              ap (λ x. has_key x done) {x = alias_key a} {y = k},
              count-create_loop matched done k rest,
            ))
        | inr take ↦ rw take (
            ground (
              arith,
              take,
              same_key_iff (alias_key a) k,
              ap (λ x. has_key x matched) {x = alias_key a} {y = k},
              ap (λ x. has_key x done) {x = alias_key a} {y = k},
              count-create_loop matched (alias_key a ∷ done) k rest,
            ))
      ]
