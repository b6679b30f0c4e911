-- ===== src/Reconcile/Pass/Doubtful.antt =====
-- The clusters whose read is doubtful.
use vtpm_mds.Prelude.{
  ℕ, suc, ◌≡◌, ◌≤◌, ◌+◌, ◌⊎◌, ◌∙◌, refl, ap, subst, inl, inr, if◌then◌else◌, Bool, true, false, not,
  Option, none, some, List, [], ◌∷◌, keep, Text, arith, Bool-cases,
}
use vtpm_mds.Dict.{Dict}
use vtpm_mds.Reconcile.Diff.{Alias}
use vtpm_mds.Reconcile.Wanted.{Guest, Cluster}
use vtpm_mds.Reconcile.Bans.{Ban, Miss}
use vtpm_mds.Reconcile.Pass.{
  Target, Call, SpireApi, PassError, create_failed, delete_failed, replace_failed, PassState,
  Progress, going, stopped, ◌>>=◌, send, send_create, send_delete, listing_entries, listing_agents,
  write_aliases, align, send_bans, ban_agents, bans_of, target_step, pass_loop, pass, is_colliding,
  listed,
}

abbrev pub with_count : ℕ → PassState → PassState
with_count n s = record s { skipped = n }

-- A result with another number of skipped clusters.
abbrev pub with_skipped : ℕ → Progress → Progress
with_skipped n (going s) = going (with_count n s)
with_skipped n (stopped s e) = stopped (with_count n s) e

abbrev count_of : Progress → ℕ
count_of (going s) = s.skipped
count_of (stopped s e) = s.skipped

abbrev pub is_going : Progress → Bool
is_going (going s) = true
is_going (stopped s e) = false

unfoldable pub is_read : Target → Bool
is_read t = elim t.read [ none ↦ false | some guests ↦ true ]

-- The number of targets that cannot be read.
unfoldable pub doubtful : List Target → ℕ
doubtful [] = 0
doubtful (t ∷ ts) = let rest = doubtful ts in if is_read t then rest else suc rest

Option-cases {ℓ} : {A : Type ℓ} (o : Option A) → (o ≡ none) ⊎ ((a : A) × (o ≡ some a))
Option-cases none = inl refl
Option-cases (some a) = inr (a, refl)

-- A step that neither reads nor changes the number of skipped clusters.
abbrev IsSteady : (PassState → Progress) → Type 0
IsSteady f = (n : ℕ) (s : PassState) → f (with_count n s) ≡ with_skipped n (f s)

then-IsSteady : (f g : PassState → Progress) → IsSteady f → IsSteady g → IsSteady (λ s. f s >>= g)
then-IsSteady f g hf hg n s = ap (λ p. p >>= g) (hf n s) ∙ at (f s)
  where
    at : (p : Progress) → (with_skipped n p >>= g) ≡ with_skipped n (p >>= g)
    at (going s) = hg n s
    at (stopped s e) = refl

-- What a pass over all targets is, beside a pass over those that can be read.
abbrev pub Skips : ℕ → ℕ → Progress → Progress → Type 0
Skips least more all read =
    (n : ℕ) × (all ≡ with_skipped n read)
    × (least ≤ n)
    × (n ≤ least + more)
    × ((n ≡ least + more) ⊎ (is_going all ≡ false))

module _ (api : SpireApi) (td : Text) where
  send-IsSteady : (c : Call) (e : PassError) → IsSteady (send api td c e)
  unfolding send
  send-IsSteady c e n s = elim (Bool-cases (api.accepts s.calls c)) [
    | inl q ↦ rw q refl
    | inr q ↦ rw q refl
  ]

  send_create-IsSteady :
      (aliases : List Alias) (e : PassError) → IsSteady (send_create api td aliases e)
  unfolding send_create
  send_create-IsSteady [] e n s = refl
  send_create-IsSteady (a ∷ rest) e n s = send-IsSteady _ e n s

  send_delete-IsSteady : (del : List Text) (e : PassError) → IsSteady (send_delete api td del e)
  unfolding send_delete
  send_delete-IsSteady [] e n s = refl
  send_delete-IsSteady (id ∷ rest) e n s = send-IsSteady _ e n s

  listing_entries-IsSteady : (name : Text) → IsSteady (listing_entries api td name)
  unfolding listing_entries
  listing_entries-IsSteady name n s = elim (Option-cases s.entries) [
    | inr (es, q) ↦ rw q refl
    | inl q ↦ elim (Option-cases api.entries) [
      | inl k ↦ rw (q, k) refl
      | inr (es, k) ↦ rw (q, k) refl
    ]
  ]

  listing_agents-IsSteady : (name : Text) → IsSteady (listing_agents api td name)
  unfolding listing_agents
  listing_agents-IsSteady name n s = elim (Option-cases s.agents) [
    | inr (l, q) ↦ rw q refl
    | inl q ↦ elim (Option-cases api.agents) [
      | inl k ↦ rw (q, k) refl
      | inr (l, k) ↦ rw (q, k) refl
    ]
  ]

  write_aliases-IsSteady :
      (name : Text) (create : List Alias) (del : List Text)
      → IsSteady (write_aliases api td name create del)
  unfolding write_aliases
  write_aliases-IsSteady name create del n s =
      then-IsSteady _ _
        (then-IsSteady _ _
          (send_create-IsSteady (keep (λ a. not (is_colliding del (listed s.entries) a)) create)
            (create_failed name))
          (send_delete-IsSteady del (delete_failed name)))
        (send_create-IsSteady (keep (is_colliding del (listed s.entries)) create)
          (replace_failed name))
        n s

  align-IsSteady :
      (cluster : Cluster) (guests : List Guest) → IsSteady (align api td cluster guests)
  unfolding align
  align-IsSteady cluster guests n s = write_aliases-IsSteady cluster.name _ _ n s

  send_bans-IsSteady : (name : Text) (bans : List Ban) → IsSteady (send_bans api td name bans)
  unfolding send_bans
  send_bans-IsSteady name [] = λ n s. refl
  send_bans-IsSteady name (b ∷ bans) =
      then-IsSteady _ _ (send-IsSteady _ _) (send_bans-IsSteady name bans)

  ban_agents-IsSteady :
      (cluster : Cluster) (guests : List Guest) → IsSteady (ban_agents api td cluster guests)
  unfolding ban_agents
  ban_agents-IsSteady cluster guests n s = send_bans-IsSteady cluster.name _ n _

  bans_of-IsSteady :
      (allow_bans : Bool) (cluster : Cluster) (guests : List Guest)
      → IsSteady (bans_of api td allow_bans cluster guests)
  unfolding bans_of
  bans_of-IsSteady true cluster guests =
      then-IsSteady _ _ (listing_agents-IsSteady cluster.name) (ban_agents-IsSteady cluster guests)
  bans_of-IsSteady false cluster guests = λ n s. refl

  module _ (allow_bans : Bool) where
    target_step-IsSteady :
        (t : Target) → is_read t ≡ true → IsSteady (target_step api td allow_bans t)
    unfolding target_step is_read
    target_step-IsSteady t h n s = elim (Option-cases t.read) [
      | inl q ↦ let no : false ≡ true = (rw q at h) in cc
      | inr (guests, q) ↦ rw q (
          then-IsSteady _ _
            (then-IsSteady _ _ (listing_entries-IsSteady t.cluster.name)
              (align-IsSteady t.cluster guests))
            (bans_of-IsSteady allow_bans t.cluster guests) n s)
    ]

    step_skips :
        (t : Target) (s : PassState)
        → is_read t ≡ false
        → target_step api td allow_bans t s ≡ going (with_count (suc s.skipped) s)
    unfolding target_step is_read
    step_skips t s h = elim (Option-cases t.read) [
      | inl q ↦ rw q refl
      | inr (guests, q) ↦ let no : true ≡ false = (rw q at h) in cc
    ]

    kept-IsSteady : (ts : List Target) → IsSteady (pass_loop api td allow_bans (keep is_read ts))
    unfolding pass_loop
    kept-IsSteady [] n s = refl
    kept-IsSteady (t ∷ ts) n s = elim (Bool-cases (is_read t)) [
      | inr q ↦ rw q (kept-IsSteady ts n s)
      | inl q ↦ rw q (then-IsSteady _ _ (target_step-IsSteady t q) (kept-IsSteady ts) n s)
    ]

    going_on :
        (p : Progress) (n : ℕ) (ts : List Target)
        → p ≡ with_skipped n p
        → ((s' : PassState)
            → Skips s'.skipped
                (doubtful ts)
                (pass_loop api td allow_bans ts s')
                (pass_loop api td allow_bans (keep is_read ts) s'))
        → Skips n
            (doubtful ts)
            (p >>= pass_loop api td allow_bans ts)
            (p >>= pass_loop api td allow_bans (keep is_read ts))
    going_on (going s') n ts e h =
        subst
          (λ m.
            Skips m (doubtful ts) (pass_loop api td allow_bans ts s')
              (pass_loop api td allow_bans (keep is_read ts) s'))
          (ap count_of e) (h s')
    going_on (stopped s' problem) n ts e h = (n, e, omega arith, omega arith, inr refl)

    skip_more :
        (m n : ℕ) (all read : Progress)
        → Skips (suc m) n all (with_skipped (suc m) read)
        → Skips m (suc n) all read
    skip_more m n all (going s) (k, e, low, high, exact) =
        (k, e, omega arith, omega arith, ground arith)
    skip_more m n all (stopped s problem) (k, e, low, high, exact) =
        (k, e, omega arith, omega arith, ground arith)

    loop-Skips :
        (ts : List Target) (s : PassState)
        → Skips s.skipped
            (doubtful ts)
            (pass_loop api td allow_bans ts s)
            (pass_loop api td allow_bans (keep is_read ts) s)
    unfolding pass_loop doubtful
    loop-Skips [] s = (s.skipped, refl, omega arith, omega arith, inl (omega arith))
    loop-Skips (t ∷ ts) s = elim (Bool-cases (is_read t)) [
      | inr q ↦
          rw (q, step_skips t s q)
            (skip_more s.skipped (doubtful ts) _ _ (
              subst
                (Skips (suc s.skipped) (doubtful ts)
                  (pass_loop api td allow_bans ts (with_count (suc s.skipped) s)))
                (kept-IsSteady ts (suc s.skipped) s)
                (loop-Skips ts (with_count (suc s.skipped) s))))
      | inl q ↦ rw q (
          going_on (target_step api td allow_bans t s) s.skipped ts
            (target_step-IsSteady t q s.skipped s) (loop-Skips ts))
    ]

    -- A pass makes the calls and leaves the entries, agents and misses that a pass over the
    -- clusters that could be read does, with the same outcome; it counts no more skipped clusters
    -- than could not be read, and exactly these unless it stops at an error.
    pub pass-Skips :
        (misses : Dict Miss) (targets : List Target)
        → Skips 0
            (doubtful targets)
            (pass api td allow_bans misses targets)
            (pass api td allow_bans misses (keep is_read targets))
    unfolding pass
    pass-Skips misses targets = loop-Skips targets _
