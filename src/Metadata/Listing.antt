-- ===== src/Metadata/Listing.antt =====
-- The tags and the topology: what is listed is what is served.
use vtpm_mds.Prelude.{
  ◌≡◌, ◌⊎◌, Option-cases, cut, Bool, true, none, some, List, inl, inr, Text, same, In, sort_texts,
  In-sort_texts, In-of_sort_texts, IsSorted, sort_texts-IsSorted,
}
use vtpm_mds.Dict
use vtpm_mds.Dict.{Dict, In-keys, get-of_In}
use vtpm_mds.Metadata.{
  Net, Request, Response, Site, validates, plain, lines, instance_tags, write_no_tag,
}
use vtpm_mds.Metadata.Routes.{
  placement_keys, placement_key, tag_keys, tag, handler, tag_keys_answer, served_or_no_tag, serve,
  requires_vm_identity, pattern_of,
}

-- A key is listed and served with its value, or neither.
abbrev pub Served : List Text → Dict Text → Text → Response → Type 0
Served keys entries key answer =
    ((v : Text) × (Dict.get key entries ≡ some v) × In key keys × (answer ≡ plain 200 v))
    ⊎ ((Dict.get key entries ≡ none) × ¬ (In key keys) × (answer ≡ write_no_tag))

-- The keys that a listing shows, in ascending order, are those that are served.
abbrev pub Listed : Dict Text → Response → (Text → Response) → Type 0
Listed entries listing answer =
    (keys : List Text) × (listing ≡ plain 200 (lines keys))
    × IsSorted keys
    × ((key : Text) → Served keys entries key (answer key))

served :
    (entries : Dict Text) (key : Text)
    → Served (sort_texts (Dict.keys entries)) entries key (served_or_no_tag (Dict.get key entries))
served entries key = elim (Option-cases (Dict.get key entries)) [
  | inl e ↦
      let unlisted : ¬ (In key (sort_texts (Dict.keys entries))) = λ m.
        let (v, h) = get-of_In key entries (In-of_sort_texts key (Dict.keys entries) m) in cc in
      inr (e, unlisted, rw e)
  | inr (v, e) ↦ inl (v, e, In-sort_texts key (Dict.keys entries) (In-keys key v entries e), rw e)
]

module _ {IP : Type 0} (net : Net IP) (require : Bool) (site : Site) (r : Request) where
  serve_tag :
      (entries : Dict Text) (key : Text)
      → validates site r ≡ true
      → instance_tags r ≡ some entries
      → serve net true require site (record r { key = key }) (some tag)
        ≡ served_or_no_tag (Dict.get key entries)
  unfolding serve requires_vm_identity pattern_of cut same handler validates instance_tags
  serve_tag entries key v e = rw (v, e)

  -- For a request with a valid token whose record has tags, the tag listing answers the keys one to
  -- a line in ascending order, and for every key, either the record has a value for it, the listing
  -- shows it, and its path answers 200 with that value, or the record has none, the listing does
  -- not show it, and its path answers the empty 404.
  pub tags-Listed :
      (entries : Dict Text)
      → validates site r ≡ true
      → instance_tags r ≡ some entries
      → Listed entries
          (serve net true require site r (some tag_keys))
          (λ key. serve net true require site (record r { key = key }) (some tag))
  unfolding serve requires_vm_identity pattern_of cut same handler tag_keys_answer
  tags-Listed entries v e = (
    sort_texts (Dict.keys entries),
    rw (v, e),
    sort_texts-IsSorted _,
    (λ key. rw (serve_tag entries key v e) (served entries key)),
  )

  -- any
  pub topology-Listed :
      validates site r ≡ true
      → Listed site.topology
          (serve net true require site r (some placement_keys))
          (λ key. serve net true require site (record r { key = key }) (some placement_key))
  unfolding serve requires_vm_identity pattern_of cut same handler validates
  topology-Listed v = (
    sort_texts (Dict.keys site.topology),
    rw v,
    sort_texts-IsSorted _,
    (λ key. rw v (served site.topology key)),
  )
