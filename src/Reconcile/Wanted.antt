-- ===== src/Reconcile/Wanted.antt =====
-- Wanted of internal/reconcile/wanted.go. A Go map used as a set is the list of what was put into it.
pub mod Inside
use vtpm_mds.Prelude.{
  byte_length, take_bytes, drop_bytes, ℕ, ◌<◌, Bool, true, false, not, ◌&&◌, ◌||◌, ◌==◌, ltb, leb,
  if◌then◌else◌, Option, none, some, List, [], ◌∷◌, ◌++◌, map, length, drop, take, Text, codes,
  same, text_lt, has_prefix, contains_rune, to_lower, equal_fold, is_space, fields_func, cut,
  sort_texts,
}
use vtpm_mds.Reconcile.Diff.{Alias, join_nul}

pub record Guest : Type 0 where
  pub vmid : Text
  pub pool : Text
  pub tags : Text
  pub template : Bool

pub record Cluster : Type 0 where
  pub name : Text
  pub fingerprints : List Text

pub record Problem : Type 0 where
  pub vmid : Text
  pub reason : Text
  pub detail : Text

abbrev pub reason_bad_segment : Text
reason_bad_segment = codes "bad-segment"

abbrev pub reason_nested_pool : Text
reason_nested_pool = codes "nested-pool"

abbrev pub reason_pool_collision : Text
reason_pool_collision = codes "pool-collision"

abbrev pub tag_prefix : Text
tag_prefix = codes "vtpm_mds.io."

abbrev pub is_segment_rune : ℕ → Bool
is_segment_rune r =
    (leb b'a' r && leb r b'z') || (leb b'0' r && leb r b'9') || r == b'.' || r == b'-' || r == b'_'

all_segment_runes : Text → Bool
all_segment_runes [] = true
all_segment_runes (r ∷ s) = is_segment_rune r && all_segment_runes s

-- validSegment
unfoldable pub valid_segment : Text → Bool
unfolding all_segment_runes
valid_segment s =
    if same s [] || same s (codes ".") || same s (codes "..") then false else all_segment_runes s

-- splitTags
unfoldable pub split_tags : Text → List Text
split_tags s = fields_func (λ r. r == b';' || r == b',' || is_space r) s

-- byLower: the pools as written that lower-case to a segment, without repeats.
has_pool : Text → List Text → Bool
has_pool p [] = false
has_pool p (q ∷ qs) = same q p || has_pool p qs

abbrev counted_pool : Guest → Bool
counted_pool g =
    not (g.template || same g.pool [] || contains_rune b'/' g.pool)
    && valid_segment (to_lower g.pool)

pools_of : Text → List Guest → List Text
unfolding has_pool
pools_of lower [] = []
pools_of lower (g ∷ guests) =
    let rest = pools_of lower guests in
    if counted_pool g && same (to_lower g.pool) lower && not (has_pool g.pool rest)
    then g.pool ∷ rest
    else rest

join_commas : List Text → Text
join_commas [] = []
join_commas (t ∷ []) = t
join_commas (t ∷ u ∷ us) = t ++ codes "," ++ join_commas (u ∷ us)

-- collide: the detail for a pool that shares its lower-case form with another one.
unfoldable pub collision : List Guest → Text → Option Text
unfolding pools_of join_commas
collision guests pool =
    let pools = pools_of (to_lower pool) guests in
    if ltb 1 (length pools) then some (join_commas (sort_texts pools)) else none

-- The pair of a SPIFFE ID and a VM ID that an alias is made for.
abbrev pub Want : Type 0
Want = Text × Text

unfoldable pub has_want : Want → List Want → Bool
has_want (id, vmid) [] = false
has_want (id, vmid) ((i, v) ∷ ws) = (same i id && same v vmid) || has_want (id, vmid) ws

-- The variables wants and problems of Wanted.
pub record Found : Type 0 where
  pub wants : List Want
  pub problems : List Problem

-- add
unfoldable pub add_want : Found → Text → Text → Found
unfolding has_want
add_want f id vmid =
    if has_want (id, vmid) f.wants then f else record f { wants = f.wants ++ (id, vmid) ∷ [] }

abbrev pub add_problem : Found → Text → Text → Text → Found
add_problem f vmid reason detail = record f {
  problems = f.problems ++ record { vmid = vmid; reason = reason; detail = detail } ∷ [];
}

abbrev pub slash : Text → Text → Text
slash a b = a ++ codes "/" ++ b

-- One piece of a guest's tags, under the SPIFFE ID of its pool.
unfoldable pub add_tag : Text → Text → Found → Text → Found
unfolding add_want
add_tag pool_id vmid f piece =
    if ltb (byte_length piece) (length tag_prefix)
      || not (equal_fold (take_bytes (length tag_prefix) piece) tag_prefix)
    then f
    else let (key, value, found) = cut b'.' (drop_bytes (length tag_prefix) piece) in
      if not found || not (valid_segment (to_lower key)) || not (valid_segment (to_lower value))
      then add_problem f vmid reason_bad_segment piece
      else add_want f (slash pool_id (codes "tag/" ++ slash (to_lower key) (to_lower value))) vmid

unfoldable pub add_tags : Text → Text → Found → List Text → Found
unfolding add_tag
add_tags pool_id vmid f [] = f
add_tags pool_id vmid f (piece ∷ pieces) =
    add_tags pool_id vmid (add_tag pool_id vmid f piece) pieces

abbrev pub pool_id : Text → Guest → Text
pool_id base g = slash base (codes "pool/" ++ to_lower g.pool)

abbrev pub add_collision : Text → Guest → Found → Option Text → Found
unfolding add_tags
add_collision base g f (some detail) = add_problem f g.vmid reason_pool_collision detail
add_collision base g f none =
    add_tags (pool_id base g) g.vmid (add_want f (pool_id base g) g.vmid) (split_tags g.tags)

-- What follows the alias of the guest itself.
unfoldable pub add_pool : Text → List Guest → Guest → Found → Found
unfolding add_tags
add_pool base guests g f =
    if same g.pool []
    then f
    else if contains_rune b'/' g.pool
    then add_problem f g.vmid reason_nested_pool g.pool
    else if not (valid_segment (to_lower g.pool))
    then add_problem f g.vmid reason_bad_segment g.pool
    else add_collision base g f (collision guests g.pool)

-- The loop over the guests.
unfoldable pub guest_loop : Text → List Guest → List Guest → Found → Found
guest_loop base guests [] f = f
guest_loop base guests (g ∷ rest) f =
    let next =
      if g.template
      then f
      else add_pool base guests g (add_want f (slash base (codes "vm/" ++ g.vmid)) g.vmid) in
    guest_loop base guests rest next

unfoldable pub alias_lt : Alias → Alias → Bool
alias_lt a b =
    if same a.spiffe_id b.spiffe_id
    then text_lt (join_nul a.selectors) (join_nul b.selectors)
    else text_lt a.spiffe_id b.spiffe_id

unfoldable pub insert_alias : Alias → List Alias → List Alias
unfolding alias_lt
insert_alias a [] = a ∷ []
insert_alias a (b ∷ bs) =
    let rest = insert_alias a bs in if alias_lt a b then a ∷ b ∷ bs else b ∷ rest

unfoldable pub sort_aliases : List Alias → List Alias
unfolding insert_alias
sort_aliases [] = []
sort_aliases (a ∷ rest) = insert_alias a (sort_aliases rest)

abbrev pub alias_for : Want → Text → Alias
alias_for (id, vmid) fp = record {
  spiffe_id = id;
  selectors =
      sort_texts
        ((codes "tpm_devid:ca:fingerprint:" ++ fp) ∷ (codes "tpm_devid:subject:cn:" ++ vmid) ∷ []);
}

unfoldable pub aliases_of : List Text → List Want → List Alias
aliases_of fps [] = []
aliases_of fps (w ∷ ws) = map (alias_for w) fps ++ aliases_of fps ws

problem_lt : Problem → Problem → Bool
problem_lt a b =
    if not (same a.vmid b.vmid)
    then text_lt a.vmid b.vmid
    else if not (same a.reason b.reason)
    then text_lt a.reason b.reason
    else text_lt a.detail b.detail

insert_problem : Problem → List Problem → List Problem
unfolding problem_lt
insert_problem a [] = a ∷ []
insert_problem a (b ∷ bs) =
    let rest = insert_problem a bs in if problem_lt a b then a ∷ b ∷ bs else b ∷ rest

sort_problems : List Problem → List Problem
unfolding insert_problem
sort_problems [] = []
sort_problems (a ∷ rest) = insert_problem a (sort_problems rest)

same_problem : Problem → Problem → Bool
same_problem a b = same a.vmid b.vmid && same a.reason b.reason && same a.detail b.detail

-- uniq: a problem equal to the one before it is left out.
drop_repeats : List Problem → List Problem
unfolding same_problem
drop_repeats [] = []
drop_repeats (a ∷ []) = a ∷ []
drop_repeats (a ∷ b ∷ rest) =
    let others = drop_repeats (b ∷ rest) in if same_problem a b then others else a ∷ others

abbrev pub base_of : Text → Cluster → Text
base_of td c = codes "spiffe://" ++ td ++ codes "/pve/" ++ c.name

-- Wanted
unfoldable pub wanted : Text → Cluster → List Guest → List Alias × List Problem
unfolding guest_loop sort_problems drop_repeats
wanted td c guests =
    let f = guest_loop (base_of td c) guests guests (record { wants = []; problems = [] }) in
    (sort_aliases (aliases_of c.fingerprints f.wants), drop_repeats (sort_problems f.problems))
