-- ===== src/Reconcile/Pass/Writes.antt =====
-- The calls of a round for a cluster, on a server that refuses duplicates.
use vtpm_mds.Prelude.{
  ◌≡◌, ◌≤◌, ◌⊎◌, ◌∙◌, refl, sym, ap, subst, inl, inr, Bool, true, false, not, List, [], ◌∷◌, ◌++◌,
  map, keep, arith, Text, Bool-cases, All, All-imp,
}
use mathlib.Core.List.{append-nil, append_assoc}
use vtpm_mds.Reconcile.Diff.{Entry, Alias, Key, entry_key, alias_key, has_key, diff}
use vtpm_mds.Reconcile.Diff.Counts.{same_key_iff, count_key}
use vtpm_mds.Reconcile.Diff.Applied.{has_text, IsDistinct, delete_ids, entry_of, count-append}
use vtpm_mds.Reconcile.Wanted.{Guest, Cluster, wanted}
use vtpm_mds.Reconcile.Bans.{has_name}
use vtpm_mds.Reconcile.Pass.{
  Call, create_call, delete_call, ban_call, SpireApi, PassError, create_failed, delete_failed,
  replace_failed, PassState, Progress, going, stopped, ◌>>=◌, replaced_keys, is_colliding, listed,
  send, send_create, send_delete, write_aliases, align,
}
use vtpm_mds.Reconcile.Pass.Order.{All-keep_with, created_free, safe_free}

abbrev pub calls_of : Progress → List Call
calls_of (going s) = s.calls
calls_of (stopped s e) = s.calls

-- A replaced key is the key of an existing entry.
replaced_existing :
    (k : Key) (del : List Text) (es : List Entry)
    → has_key k (replaced_keys del es) ≡ true
    → has_key k (map entry_key es) ≡ true
unfolding replaced_keys has_key
replaced_existing k del [] h = h
replaced_existing k del (e ∷ es) h = elim (Bool-cases (has_name e.id del)) [
  | inl q ↦ let h' = rw q at h in ground (arith, h', replaced_existing k del es)
  | inr q ↦ let h' = rw q at h in ground (arith, replaced_existing k del es h')
]

module _ (td cluster : Text) (fresh : Alias → Text) (existing : List Entry) where
  delete_ids-append :
      (del : List Text) (l r : List Entry)
      → delete_ids td cluster del (l ++ r)
        ≡ delete_ids td cluster del l ++ delete_ids td cluster del r
  unfolding delete_ids
  delete_ids-append del [] r = refl
  delete_ids-append del (e ∷ l) r = ground (arith, delete_ids-append del l r)

  count-delete_ids-le :
      (k : Key) (del : List Text) (es : List Entry)
      → count_key td cluster k (delete_ids td cluster del es) ≤ count_key td cluster k es
  unfolding delete_ids count_key
  count-delete_ids-le k del [] = omega arith
  count-delete_ids-le k del (e ∷ es) = ground (arith, count-delete_ids-le k del es)

  -- The aliases that collide with no deletion have other keys than those that do.
  count_safe :
      (k : Key) (keys : List Key) (create : List Alias)
      → has_key k keys ≡ true
      → count_key td cluster k
          (map (entry_of td cluster fresh) (keep (λ a. not (has_key (alias_key a) keys)) create))
        ≡ 0
  unfolding count_key
  count_safe k keys [] h = refl
  count_safe k keys (a ∷ create) h = elim (Bool-cases (has_key (alias_key a) keys)) [
    | inl q ↦ rw q (count_safe k keys create h)
    | inr q ↦ rw q (
        ground (
          arith,
          count_safe k keys create h,
          same_key_iff (alias_key a) k,
          ap (λ j. has_key j keys) {x = alias_key a} {y = k},
          q,
          h,
        ))
  ]

  colliding_free :
      (k : Key) (del : List Text) (create : List Alias)
      → has_key k (replaced_keys del existing) ≡ true
      → count_key td cluster k (delete_ids td cluster del existing) ≡ 0
      → count_key td cluster k (
          delete_ids td cluster del (
            existing
            ++ map
                (entry_of td cluster fresh)
                (keep (λ a. not (is_colliding del existing a)) create)))
        ≡ 0
  colliding_free k del create h z =
      let safe =
        map (entry_of td cluster fresh) (keep (λ a. not (is_colliding del existing a)) create) in
      rw (delete_ids-append del existing safe) (
        omega (
          arith,
          count-append td cluster k (delete_ids td cluster del existing)
              (delete_ids td cluster del safe),
          z,
          count-delete_ids-le k del safe,
          count_safe k (replaced_keys del existing) create h,
        ))

  -- The entries of the server, and whether some were deleted.
  abbrev pub SpireState : Type 0
  SpireState = List Entry × Bool

  abbrev pub effect : SpireState → Call → SpireState
  effect (es, cut) (create_call aliases) = (es ++ map (entry_of td cluster fresh) aliases, cut)
  effect (es, cut) (delete_call del) = (delete_ids td cluster del es, true)
  effect (es, cut) (ban_call id) = (es, cut)

  -- No managed entry has the key of a created alias, and behind a deletion only aliases are created
  -- that stand in for an existing entry.
  abbrev pub IsAllowed : SpireState → Call → Type 0
  IsAllowed (es, cut) (create_call aliases) =
      All
        (λ a.
          (count_key td cluster (alias_key a) es ≡ 0)
          × ((cut ≡ false) ⊎ (has_key (alias_key a) (map entry_key existing) ≡ true)))
        aliases
  IsAllowed x (delete_call del) = Unit
  IsAllowed x (ban_call id) = Unit

  -- Each call is allowed where the calls before it took effect.
  abbrev pub IsOrdered : SpireState → List Call → Type 0
  IsOrdered x [] = Unit
  IsOrdered x (c ∷ calls) = IsAllowed x c × IsOrdered (effect x c) calls

  abbrev after : SpireState → List Call → SpireState
  after x [] = x
  after x (c ∷ calls) = after (effect x c) calls

  IsOrdered-append :
      (x : SpireState) (calls : List Call) (c : Call)
      → IsOrdered x calls
      → IsAllowed (after x calls) c
      → IsOrdered x (calls ++ c ∷ [])
  IsOrdered-append x [] c h ok = (ok, tt)
  IsOrdered-append x (d ∷ calls) c h ok = (h.0, IsOrdered-append (effect x d) calls c h.1 ok)

  after-append :
      (x : SpireState) (calls : List Call) (c : Call)
      → after x (calls ++ c ∷ []) ≡ effect (after x calls) c
  after-append x [] c = refl
  after-append x (d ∷ calls) c = after-append (effect x d) calls c

  module _ (before : List Call) where
    -- The calls since `before` are ordered and lead to this server.
    abbrev Holds : SpireState → PassState → Type 0
    Holds x s =
        (news : List Call) × (s.calls ≡ before ++ news)
        × IsOrdered (existing, false) news
        × (after (existing, false) news ≡ x)

    abbrev Ends : (PassState → Type 0) → Progress → Type 0
    Ends Q (going s) = Q s
    Ends Q (stopped s e) = (x : SpireState) × Holds x s

    bind-Ends :
        (Q R : PassState → Type 0) (p : Progress) (f : PassState → Progress)
        → Ends Q p
        → ((s : PassState) → Q s → Ends R (f s))
        → Ends R (p >>= f)
    bind-Ends Q R (going s) f h k = k s h
    bind-Ends Q R (stopped s e) f h k = h

    imp-Ends :
        (Q R : PassState → Type 0) (p : Progress)
        → ((s : PassState) → Q s → R s)
        → Ends Q p
        → Ends R p
    imp-Ends Q R (going s) k h = k s h
    imp-Ends Q R (stopped s e) k h = h

    abbrev Any : PassState → Type 0
    Any s = (x : SpireState) × Holds x s

    ended :
        (p : Progress)
        → Ends Any p
        → (news : List Call) × (calls_of p ≡ before ++ news) × IsOrdered (existing, false) news
    ended (going s) (y, (news, calls, ordered, _)) = (news, calls, ordered)
    ended (stopped s e) (y, (news, calls, ordered, _)) = (news, calls, ordered)

    module _ (api : SpireApi) where
      send-Ends :
          (x : SpireState) (c : Call) (e : PassError) (s : PassState)
          → IsAllowed x c
          → Holds x s
          → Ends (Holds (effect x c)) (send api td c e s)
      unfolding send
      send-Ends x c e s ok (news, calls, ordered, leads) =
          elim (Bool-cases (api.accepts s.calls c)) [
            | inl q ↦ rw q sent
            | inr q ↦ rw q (effect x c, sent)
          ]
        where
          sent : Holds (effect x c) (record s { calls = s.calls ++ c ∷ [] })
          sent = (
            news ++ c ∷ [],
            ap (λ l. l ++ c ∷ []) calls ∙ append_assoc before news (c ∷ []),
            IsOrdered-append (existing, false) news c ordered
                (subst (λ y. IsAllowed y c) (sym leads) ok),
            after-append (existing, false) news c ∙ ap (λ y. effect y c) leads,
          )

      send_create-Ends :
          (x : SpireState) (aliases : List Alias) (e : PassError) (s : PassState)
          → IsAllowed x (create_call aliases)
          → Holds x s
          → Ends (Holds (effect x (create_call aliases))) (send_create api td aliases e s)
      unfolding send_create
      send_create-Ends (es, cut) [] e s ok h = subst (λ l. Holds (l, cut) s) (sym (append-nil es)) h
      send_create-Ends x (a ∷ rest) e s ok h = send-Ends x (create_call (a ∷ rest)) e s ok h

      -- Some or no entries are deleted.
      abbrev Cut : List Text → List Entry → PassState → Type 0
      Cut del es s = (cut : Bool) × Holds (delete_ids td cluster del es, cut) s

      delete_ids-nil : (es : List Entry) → delete_ids td cluster [] es ≡ es
      unfolding delete_ids has_text
      delete_ids-nil [] = refl
      delete_ids-nil (e ∷ es) = ap (λ (l : List Entry). e ∷ l) (delete_ids-nil es)

      send_delete-Ends :
          (es : List Entry) (cut : Bool) (del : List Text) (e : PassError) (s : PassState)
          → Holds (es, cut) s
          → Ends (Cut del es) (send_delete api td del e s)
      unfolding send_delete
      send_delete-Ends es cut [] e s h =
          (cut, subst (λ l. Holds (l, cut) s) (sym (delete_ids-nil es)) h)
      send_delete-Ends es cut (id ∷ rest) e s h =
          imp-Ends (Holds (delete_ids td cluster (id ∷ rest) es, true)) (Cut (id ∷ rest) es) _
            (λ s' k. (true, k)) (send-Ends (es, cut) (delete_call (id ∷ rest)) e s tt h)

      write_aliases-Ends :
          (name : Text) (create : List Alias) (del : List Text) (s : PassState)
          → listed s.entries ≡ existing
          → All
              (λ a. count_key td cluster (alias_key a) existing ≡ 0)
              (keep (λ a. not (is_colliding del existing a)) create)
          → All
              (λ a. count_key td cluster (alias_key a) (delete_ids td cluster del existing) ≡ 0)
              create
          → s.calls ≡ before
          → (news : List Call) × (calls_of (write_aliases api td name create del s)
              ≡ before ++ news)
            × IsOrdered (existing, false) news
      unfolding write_aliases
      write_aliases-Ends name create del s e safe free start = rw e (
          ended _ (
            bind-Ends (Cut del left) Any _ (send_create api td colliding (replace_failed name))
              (bind-Ends (Holds (left, false)) (Cut del left) _
                (send_delete api td del (delete_failed name))
                (send_create-Ends (existing, false) others (create_failed name) s
                  (All-imp (λ a z. (z, inl refl)) others safe)
                  ([], start ∙ sym (append-nil before), tt, refl))
                (λ s' h. send_delete-Ends left false del (delete_failed name) s' h))
              (λ s' (cut, h). last s' cut h)))
        where
          others : List Alias
          others = keep (λ a. not (is_colliding del existing a)) create

          colliding : List Alias
          colliding = keep (is_colliding del existing) create

          left : List Entry
          left = existing ++ map (entry_of td cluster fresh) others

          last :
              (s' : PassState) (cut : Bool)
              → Holds (delete_ids td cluster del left, cut) s'
              → Ends Any (send_create api td colliding (replace_failed name) s')
          last s' cut h =
              imp-Ends
                (Holds (effect (delete_ids td cluster del left, cut) (create_call colliding))) Any _
                (λ s'' k. (_, k))
                (send_create-Ends (delete_ids td cluster del left, cut) colliding
                  (replace_failed name) s'
                  (All-keep_with _ _ _
                    (λ a q z. (
                      colliding_free (alias_key a) del create q z,
                      inr (replaced_existing (alias_key a) del existing q),
                    ))
                    create free)
                  h)

-- Where every listed entry has its own ID, the calls of a round for a cluster, each on the entries
-- that the calls before it leave, create no alias with the SPIFFE ID and selectors of a managed
-- entry, and after a deletion only aliases with those of an entry that was listed.
pub align-IsOrdered :
    (td : Text) (cluster : Cluster) (fresh : Alias → Text) (api : SpireApi) (guests : List Guest)
    (s : PassState)
    → IsDistinct (listed s.entries)
    → (news : List Call) × (calls_of (align api td cluster guests s) ≡ s.calls ++ news)
      × IsOrdered td cluster.name fresh (listed s.entries) (listed s.entries, false) news
unfolding align
align-IsOrdered td cluster fresh api guests s distinct =
    let entries = listed s.entries in
    let aliases = (wanted td cluster guests).0 in
    write_aliases-Ends td cluster.name fresh entries s.calls api cluster.name
      (diff td cluster.name entries aliases).0 (diff td cluster.name entries aliases).1 s refl
      (safe_free td cluster.name entries aliases distinct)
      (created_free td cluster.name entries aliases distinct) refl
