-- ===== src/Reconcile/Diff.antt =====
-- Diff of internal/reconcile/diff.go. A Go map used as a set is the list of the keys put into it.
pub mod Counts
pub mod Applied
use vtpm_mds.Prelude.{
  ℕ, Bool, true, false, not, ◌&&◌, ◌||◌, List, [], ◌∷◌, ◌++◌, map, if◌then◌else◌, Text, codes, same,
  text_lt, has_prefix, sort_texts,
}

pub record Entry : Type 0 where
  pub id : Text
  pub parent_id : Text
  pub spiffe_id : Text
  pub selectors : List Text
  pub default : Bool

pub record Alias : Type 0 where
  pub spiffe_id : Text
  pub selectors : List Text

-- strings.Join(ts, "\x00")
unfoldable pub join_nul : List Text → Text
join_nul [] = []
join_nul (t ∷ []) = t
join_nul (t ∷ u ∷ us) = t ++ (0 ∷ join_nul (u ∷ us))

-- selectorKey
unfoldable pub selector_key : List Text → Text
unfolding join_nul
selector_key sel = join_nul (sort_texts sel)

-- The struct key of Diff.
abbrev pub Key : Type 0
Key = Text × Text

abbrev pub entry_key : Entry → Key
entry_key e = (e.spiffe_id, selector_key e.selectors)

abbrev pub alias_key : Alias → Key
alias_key a = (a.spiffe_id, selector_key a.selectors)

abbrev pub same_key : Key → Key → Bool
same_key (a, s) (b, t) = same a b && same s t

-- Whether a set of keys has a key.
unfoldable pub has_key : Key → List Key → Bool
has_key k [] = false
has_key k (j ∷ js) = same_key j k || has_key k js

-- parent and prefix
abbrev pub parent_of : Text → Text
parent_of td = codes "spiffe://" ++ td ++ codes "/spire/server"

abbrev pub prefix_of : Text → Text → Text
prefix_of td cluster = codes "spiffe://" ++ td ++ codes "/pve/" ++ cluster ++ codes "/"

-- The entries that Diff looks at.
unfoldable pub is_managed : Text → Text → Entry → Bool
is_managed td cluster e =
    same e.parent_id (parent_of td) && has_prefix (prefix_of td cluster) e.spiffe_id

module _ (td cluster : Text) where
  -- An entry that stays: it is the first that matches a wanted key.
  unfoldable pub matches : List Key → List Key → Entry → Bool
  matches want matched e =
      is_managed td cluster e
      && e.default
      && has_key (entry_key e) want
      && not (has_key (entry_key e) matched)

  abbrev pub mark : Bool → Key → List Key → List Key
  mark true k set = k ∷ set
  mark false k set = set

  -- The loop over the existing entries: the matched keys and the identifiers to delete.
  unfoldable pub match_loop : List Key → List Key → List Entry → List Key × List Text
  unfolding matches is_managed
  match_loop want matched [] = (matched, [])
  match_loop want matched (e ∷ es) =
      let (final, del) = match_loop want (mark (matches want matched e) (entry_key e) matched) es in
      if not (is_managed td cluster e) || matches want matched e
      then (final, del)
      else (final, e.id ∷ del)

  -- The loop over the wanted aliases.
  unfoldable pub create_loop : List Key → List Key → List Alias → List Alias
  create_loop matched done [] = []
  create_loop matched done (a ∷ rest) =
      let skip = has_key (alias_key a) matched || has_key (alias_key a) done in
      let others = create_loop matched (mark (not skip) (alias_key a) done) rest in
      if skip then others else a ∷ others

  -- Diff
  unfoldable pub diff : List Entry → List Alias → List Alias × List Text
  unfolding match_loop create_loop
  diff existing wanted =
      let (matched, del) = match_loop (map alias_key wanted) [] existing in
      (create_loop matched [] wanted, del)
