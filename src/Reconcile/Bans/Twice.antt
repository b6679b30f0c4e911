-- ===== src/Reconcile/Bans/Twice.antt =====
-- Observe bans an agent at the second read in a row that misses its VM.
use vtpm_mds.Prelude.{
  ◌≡◌, ◌∙◌, refl, ap, subst, Bool, true, false, ◌&&◌, ◌||◌, none, List, [], ◌∷◌, arith, Text, same,
  same_iff, any, Bool-cases, inl, inr,
}
use vtpm_mds.Dict
use vtpm_mds.Dict.{Dict}
use vtpm_mds.Reconcile.Bans.{
  Agent, Ban, Miss, Observed, counted, has_name, agent_info, observe_info, observe_agent,
  observe_loop, observe, drop_unseen, insert_ban, sort_bans,
}
use vtpm_mds.Reconcile.Bans.Agents.{
  has_ban, is_missing, info_other, info_seen, info_missing_first, info_missing_again, info_listed,
}

abbrev pub has_id : Text → List Agent → Bool
has_id x = any (λ a. same a.id x)

-- Every agent has its own ID.
abbrev pub Distinct : List Agent → Type 0
Distinct [] = Unit
Distinct (a ∷ agents) = (has_id a.id agents ≡ false) × Distinct agents

-- A read misses an agent: it lists it, as one of the cluster, and does not list its VM.
abbrev pub missed : List Text → List Text → Text → List Agent → Bool
missed mine listed x = any (λ a. same a.id x && is_missing mine listed (agent_info a))

missed-has_id :
    (mine listed : List Text) (x : Text) (agents : List Agent)
    → has_id x agents ≡ false
    → missed mine listed x agents ≡ false
missed-has_id mine listed x [] h = refl
missed-has_id mine listed x (a ∷ agents) h = ground (arith, missed-has_id mine listed x agents)

has_ban-insert :
    (x : Text) (b : Ban) (bs : List Ban)
    → has_ban x (insert_ban b bs) ≡ (same b.agent_id x || has_ban x bs)
unfolding insert_ban
has_ban-insert x b [] = refl
has_ban-insert x b (c ∷ cs) = ground (arith, has_ban-insert x b cs)

has_ban-sort : (x : Text) (bs : List Ban) → has_ban x (sort_bans bs) ≡ has_ban x bs
unfolding sort_bans
has_ban-sort x [] = refl
has_ban-sort x (b ∷ bs) = ground (arith, has_ban-insert x b (sort_bans bs), has_ban-sort x bs)

module _ (mine : List Text) (seen : List Text) (x : Text) where
  drop_unseen-seen :
      (ms : Dict Miss)
      → has_name x seen ≡ true
      → Dict.get x (drop_unseen mine seen ms) ≡ Dict.get x ms
  unfolding drop_unseen Dict.get
  drop_unseen-seen [] h = refl
  drop_unseen-seen ((id, m) ∷ ms) h = elim (Bool-cases (same id x)) [
    | inl e ↦ ground (arith, same_iff id x, drop_unseen-seen ms h)
    | inr e ↦ ground (arith, drop_unseen-seen ms h)
  ]

  drop_unseen-none :
      (ms : Dict Miss) → Dict.get x ms ≡ none → Dict.get x (drop_unseen mine seen ms) ≡ none
  unfolding drop_unseen Dict.get
  drop_unseen-none [] h = refl
  drop_unseen-none ((id, m) ∷ ms) h = ground (arith, drop_unseen-none ms)

module _ (mine listed : List Text) (x : Text) where
  loop_other :
      (o : Observed) (agents : List Agent)
      → has_id x agents ≡ false
      → (Dict.get x (observe_loop mine listed o agents).misses ≡ Dict.get x o.misses)
        × (has_ban x (observe_loop mine listed o agents).bans ≡ has_ban x o.bans)
  unfolding observe_loop observe_agent
  loop_other o [] h = (refl, refl)
  loop_other o (a ∷ agents) h =
      let (d, rest) : (same a.id x ≡ false) × (has_id x agents ≡ false) =
        (ground arith, ground arith) in
      let (g, b) = info_other mine listed o a.id (agent_info a) x d in
      let (g', b') = loop_other (observe_agent mine listed o a) agents rest in (g' ∙ g, b' ∙ b)

  loop_seen :
      (o : Observed) (agents : List Agent)
      → has_name x o.seen ≡ true
      → has_name x (observe_loop mine listed o agents).seen ≡ true
  unfolding observe_loop observe_agent
  loop_seen o [] h = h
  loop_seen o (a ∷ agents) h =
      loop_seen (observe_agent mine listed o a) agents
        (info_seen mine listed o a.id (agent_info a) x h)

  absent :
      (a : Agent) (agents : List Agent) → Distinct (a ∷ agents) → a.id ≡ x → has_id x agents ≡ false
  absent a agents d e = subst (λ (y : Text). has_id y agents ≡ false) e d.0

  -- No miss is recorded before the loop.
  loop_first :
      (o : Observed) (agents : List Agent)
      → Distinct agents
      → Dict.get x o.misses ≡ none
      → (has_ban x (observe_loop mine listed o agents).bans ≡ has_ban x o.bans)
        × (missed mine listed x agents ≡ true
            → (counted (Dict.get x (observe_loop mine listed o agents).misses) ≡ 1)
              × (has_name x (observe_loop mine listed o agents).seen ≡ true))
        × (missed mine listed x agents ≡ false
            → Dict.get x (observe_loop mine listed o agents).misses ≡ none)
  unfolding observe_loop observe_agent
  loop_first o [] d h = (refl, (λ m. cc), (λ m. h))
  loop_first o (a ∷ agents) d h =
      let next = observe_info mine listed o a.id (agent_info a) in
      elim (Bool-cases (same a.id x)) [
        | inr e ↦
            let (g, b) = info_other mine listed o a.id (agent_info a) x e in
            let (b', first, none_left) = loop_first next agents d.1 (g ∙ h) in
            (b' ∙ b, (λ m. first (rw e at m)), (λ m. none_left (rw e at m)))
        | inl e ↦
            let own = (same_iff a.id x).0 e in
            let rest = absent a agents d own in
            let (g', b') = loop_other next agents rest in
            let others = missed-has_id mine listed x agents rest in
            elim (Bool-cases (is_missing mine listed (agent_info a))) [
              | inl m ↦
                  let (c, b, s) =
                    subst
                      (λ (y : Text).
                        Dict.get y o.misses ≡ none
                        → (counted (Dict.get y next.misses) ≡ 1)
                          × (has_ban y next.bans ≡ has_ban y o.bans)
                          × (has_name y next.seen ≡ true))
                      own (info_missing_first mine listed o a.id (agent_info a) m) h in
                  (
                    b' ∙ b,
                    (λ _. (ap counted g' ∙ c, loop_seen next agents s)),
                    (λ k. ground (arith, e, m, k)),
                  )
              | inr m ↦
                  let (keeps, b) =
                    subst
                      (λ (y : Text).
                        (Dict.get y o.misses ≡ none → Dict.get y next.misses ≡ none)
                        × (has_ban y next.bans ≡ has_ban y o.bans))
                      own (info_listed mine listed o a.id (agent_info a) m) in
                  (b' ∙ b, (λ k. ground (arith, e, m, k, others)), (λ _. g' ∙ keeps h))
            ]
      ]

  -- One miss is recorded before the loop.
  loop_again :
      (o : Observed) (agents : List Agent)
      → Distinct agents
      → counted (Dict.get x o.misses) ≡ 1
      → has_ban x (observe_loop mine listed o agents).bans
        ≡ (has_ban x o.bans || missed mine listed x agents)
  unfolding observe_loop observe_agent
  loop_again o [] d h = ground arith
  loop_again o (a ∷ agents) d h =
      let next = observe_info mine listed o a.id (agent_info a) in
      elim (Bool-cases (same a.id x)) [
        | inr e ↦
            let (g, b) = info_other mine listed o a.id (agent_info a) x e in
            rw (loop_again next agents d.1 (ap counted g ∙ h), b, e) refl
        | inl e ↦
            let own = (same_iff a.id x).0 e in
            let rest = absent a agents d own in
            let (g', b') = loop_other next agents rest in
            let others = missed-has_id mine listed x agents rest in
            elim (Bool-cases (is_missing mine listed (agent_info a))) [
              | inl m ↦
                  let b =
                    subst
                      (λ (y : Text). counted (Dict.get y o.misses) ≡ 1 → has_ban y next.bans ≡ true)
                      own (info_missing_again mine listed o a.id (agent_info a) m) h in
                  ground (arith, b', b, e, m)
              | inr m ↦
                  let (_, b) =
                    subst
                      (λ (y : Text).
                        (Dict.get y o.misses ≡ none → Dict.get y next.misses ≡ none)
                        × (has_ban y next.bans ≡ has_ban y o.bans))
                      own (info_listed mine listed o a.id (agent_info a) m) in
                  ground (arith, b', b, e, m, others)
            ]
      ]

module _ (mine : List Text) (misses : Dict Miss) (listed1 listed2 : List Text)
    (agents1 agents2 : List Agent) (x : Text) where
  -- If no miss is recorded for an agent, then after two reads of one cluster that list no agent
  -- twice, it is not banned at the first read, and at the second exactly if both reads list it, as
  -- an agent of the cluster, and miss its VM.
  pub banned_after_two_misses :
      Distinct agents1
      → Distinct agents2
      → Dict.get x misses ≡ none
      → (has_ban x (observe misses mine listed1 agents1).1 ≡ false)
        × (has_ban x (observe (observe misses mine listed1 agents1).0 mine listed2 agents2).1
            ≡ (missed mine listed1 x agents1 && missed mine listed2 x agents2))
  unfolding observe
  banned_after_two_misses d1 d2 h =
      let begin : Observed = record { misses = misses; seen = []; bans = [] } in
      let first = observe_loop mine listed1 begin agents1 in
      let (b, some_miss, no_miss) = loop_first mine listed1 x begin agents1 d1 h in
      let kept = drop_unseen mine first.seen first.misses in
      let again : Observed = record { misses = kept; seen = []; bans = [] } in
      (
        has_ban-sort x first.bans ∙ b,
        has_ban-sort x (observe_loop mine listed2 again agents2).bans
            ∙ elim (Bool-cases (missed mine listed1 x agents1)) [
              | inl m ↦
                  let (c, s) = some_miss m in
                  rw m (
                    loop_again mine listed2 x again agents2 d2
                      (ap counted (drop_unseen-seen mine first.seen x first.misses s) ∙ c))
              | inr m ↦
                  rw m
                    (loop_first mine listed2 x again agents2 d2
                      (drop_unseen-none mine first.seen x first.misses (no_miss m))).0
            ],
      )
