-- ===== src/Proxmox/Tags.antt =====
-- Which tags of a guest are instance tags.
use vtpm_mds.Prelude.{
  map, has_prefix, to_lower, drop_bytes, length, cut, ◌&&◌, ◌≡◌, ◌∙◌, refl, sym, ap, subst, true,
  false, List, [], ◌∷◌, ◌++◌, arith, Text, same, same_iff, Bool-cases, inl, inr, Option, none, some,
  keep, value_or, fields_func, if◌then◌else◌,
}
use mathlib.Core.List.{append-nil, append_assoc}
use vtpm_mds.Dict
use vtpm_mds.Dict.{Dict, get-put, IsKeyed, put-IsKeyed, get-empty}
use vtpm_mds.Inventory.{valid_tag_key, valid_tag_value}
use vtpm_mds.Proxmox.{
  tag_entry, tag_prefix, TagEntry, tag_entries, group, take_single, put_single, instance_tags,
  is_separator,
}

-- The entries of a key, in their order.
abbrev of_key : Text → List TagEntry → List TagEntry
of_key k = keep (λ e. same e.key k)

-- The value of a list that is one valid entry.
abbrev single_value : List TagEntry → Option Text
single_value (e ∷ []) = if e.ok then some e.value else none
single_value _ = none

abbrev entries_of : Dict (List TagEntry) → Text → List TagEntry
entries_of m k = value_or [] (Dict.get k m)

add_entry :
    (k : Text) (e : TagEntry) (m : Dict (List TagEntry))
    → entries_of (Dict.put e.key (entries_of m e.key ++ e ∷ []) m) k
      ≡ (if same e.key k then entries_of m k ++ e ∷ [] else entries_of m k)
add_entry k e m = elim (Bool-cases (same e.key k)) [
  | inl q ↦
      rw (get-put e.key k (entries_of m e.key ++ e ∷ []) m, q)
        (ap (λ (j : Text). entries_of m j ++ e ∷ []) ((same_iff e.key k).0 q))
  | inr q ↦ rw (get-put e.key k (entries_of m e.key ++ e ∷ []) m, q) refl
]

group-get :
    (k : Text) (es : List TagEntry) (m : Dict (List TagEntry))
    → entries_of (group m es) k ≡ entries_of m k ++ of_key k es
unfolding group
group-get k [] m = sym (append-nil (entries_of m k))
group-get k (e ∷ es) m =
    group-get k es (Dict.put e.key (entries_of m e.key ++ e ∷ []) m)
    ∙ ap (λ (l : List TagEntry). l ++ of_key k es) (add_entry k e m)
    ∙ elim (Bool-cases (same e.key k)) [
      | inl q ↦ rw q (append_assoc (entries_of m k) (e ∷ []) (of_key k es))
      | inr q ↦ rw q refl
    ]

group-IsKeyed : (es : List TagEntry) (m : Dict (List TagEntry)) → IsKeyed m → IsKeyed (group m es)
unfolding group
group-IsKeyed [] m h = h
group-IsKeyed (e ∷ es) m h =
    group-IsKeyed es (Dict.put e.key (entries_of m e.key ++ e ∷ []) m)
      (put-IsKeyed e.key (entries_of m e.key ++ e ∷ []) m h)

put_single-other :
    (k j : Text) (es : List TagEntry) (out : Dict Text)
    → same j k ≡ false
    → Dict.get k (put_single j es out) ≡ Dict.get k out
unfolding put_single
put_single-other k j [] out h = refl
put_single-other k j (e ∷ []) out h = ground (arith, get-put j k e.value out)
put_single-other k j (e ∷ f ∷ es) out h = refl

put_single-own :
    (k j : Text) (es : List TagEntry) (out : Dict Text)
    → same j k ≡ true
    → Dict.get k out ≡ none
    → Dict.get k (put_single j es out) ≡ single_value es
unfolding put_single
put_single-own k j [] out h n = n
put_single-own k j (e ∷ []) out h n = ground (arith, get-put j k e.value out)
put_single-own k j (e ∷ f ∷ es) out h n = n

take_single-absent :
    (k : Text) (m : Dict (List TagEntry)) (out : Dict Text)
    → Dict.get k m ≡ none
    → Dict.get k (take_single out m) ≡ Dict.get k out
unfolding take_single Dict.get
take_single-absent k [] out h = refl
take_single-absent k ((j, es) ∷ m) out h =
    let (q, rest) : (same j k ≡ false) × (Dict.get k m ≡ none) = (ground arith, ground arith) in
    take_single-absent k m (put_single j es out) rest ∙ put_single-other k j es out q

module _ (k j : Text) (es : List TagEntry) (m : Dict (List TagEntry)) where
  head_get : same j k ≡ true → Dict.get k ((j, es) ∷ m) ≡ some es
  unfolding Dict.get
  head_get q = rw q refl

  tail_get : same j k ≡ false → Dict.get k ((j, es) ∷ m) ≡ Dict.get k m
  unfolding Dict.get
  tail_get q = rw q refl

-- Values are taken key by key.
take_single-get :
    (k : Text) (m : Dict (List TagEntry)) (out : Dict Text)
    → IsKeyed m
    → Dict.get k out ≡ none
    → Dict.get k (take_single out m) ≡ single_value (entries_of m k)
unfolding take_single
take_single-get k [] out h n = rw get-empty n
take_single-get k ((j, es) ∷ m) out h n = elim (Bool-cases (same j k)) [
  | inl q ↦
      let gone : Dict.get k m ≡ none =
        subst (λ (i : Text). Dict.get i m ≡ none) ((same_iff j k).0 q) h.0 in
      take_single-absent k m (put_single j es out) gone
      ∙ put_single-own k j es out q n
      ∙ ap (λ o. single_value (value_or [] o)) (sym (head_get k j es m q))
  | inr q ↦
      take_single-get k m (put_single j es out) h.1 (put_single-other k j es out q ∙ n)
      ∙ ap (λ o. single_value (value_or [] o)) (sym (tail_get k j es m q))
]

-- What follows the prefix in the fields that have it, in some case.
unfoldable pub rests : List Text → List Text
rests [] = []
rests (tag ∷ tags) =
    let others = rests tags in
    if has_prefix tag_prefix (to_lower tag)
    then drop_bytes (length tag_prefix) tag ∷ others
    else others

-- The parts of a rest before and after its first dot.
abbrev pub key_of : Text → Text
key_of rest = (cut b'.' rest).0

-- The value of the only rest, where it has a dot between a valid key and a valid value.
abbrev pub declared : List Text → Option Text
declared (rest ∷ []) =
    let (key, value, dotted) = cut b'.' rest in
    if dotted && valid_tag_key key && valid_tag_value value then some value else none
declared _ = none

abbrev entry_of : Text → TagEntry
entry_of rest =
    let (key, value, dotted) = cut b'.' rest in
    record { key = key; value = value; ok = dotted && valid_tag_key key && valid_tag_value value }

entries_of_rests : (tags : List Text) → tag_entries tags ≡ map entry_of (rests tags)
unfolding tag_entries tag_entry rests
entries_of_rests [] = refl
entries_of_rests (tag ∷ tags) = elim (Bool-cases (has_prefix tag_prefix (to_lower tag))) [
  | inl q ↦ rw q (
      ap (λ (l : List TagEntry). entry_of (drop_bytes (length tag_prefix) tag) ∷ l)
        (entries_of_rests tags))
  | inr q ↦ rw q (entries_of_rests tags)
]

of_key-map :
    (k : Text) (l : List Text)
    → of_key k (map entry_of l) ≡ map entry_of (keep (λ rest. same (key_of rest) k) l)
of_key-map k [] = refl
of_key-map k (rest ∷ l) = elim (Bool-cases (same (key_of rest) k)) [
  | inl q ↦ rw q (ap (λ (l : List TagEntry). entry_of rest ∷ l) (of_key-map k l))
  | inr q ↦ rw q (of_key-map k l)
]

single_value-map : (l : List Text) → single_value (map entry_of l) ≡ declared l
single_value-map [] = refl
single_value-map (rest ∷ []) = refl
single_value-map (rest ∷ other ∷ l) = refl

-- Among the fields that start with the prefix up to case, if exactly one has the key between the
-- prefix and its first dot, and it has that dot and a valid key and value around it, then that
-- value is the key's instance tag; otherwise the key has none.
pub instance_tags-get :
    (tags k : Text)
    → Dict.get k (instance_tags tags)
      ≡ declared (keep (λ rest. same (key_of rest) k) (rests (fields_func is_separator tags)))
unfolding instance_tags
instance_tags-get tags k =
    let fields = fields_func is_separator tags in
    let es = tag_entries fields in
    take_single-get k (group [] es) [] (group-IsKeyed es [] tt) (get-empty k)
    ∙ ap single_value (
        group-get k es []
        ∙ ap (λ o. value_or [] o ++ of_key k es) (get-empty k)
        ∙ ap (of_key k) (entries_of_rests fields)
        ∙ of_key-map k (rests fields))
    ∙ single_value-map (keep (λ rest. same (key_of rest) k) (rests fields))
