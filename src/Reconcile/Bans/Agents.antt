-- ===== src/Reconcile/Bans/Agents.antt =====
-- What one agent changes in the tracker: its own miss and its own ban, and no other's.
use vtpm_mds.Prelude.{
  ◌+◌, ◌≡◌, refl, Bool, true, false, not, ◌&&◌, ◌||◌, none, some, Option, List, [], ◌∷◌, ◌++◌,
  arith, Text, same, same_refl, any,
}
use vtpm_mds.Dict
use vtpm_mds.Dict.{Dict, get-put, get-remove}
use vtpm_mds.Reconcile.Bans.{Ban, Miss, Observed, counted, has_name, belongs, observe_info}

-- Whether a list of bans names an agent.
abbrev pub has_ban : Text → List Ban → Bool
has_ban x = any (λ b. same b.agent_id x)

-- Whether an agent with this agentInfo is one of the cluster whose VM is not listed.
abbrev pub is_missing : List Text → List Text → Option (List Text × Text) → Bool
is_missing mine listed none = false
is_missing mine listed (some (fps, vmid)) = belongs mine fps && not (has_name vmid listed)

has_ban-append :
    (x : Text) (bs cs : List Ban) → has_ban x (bs ++ cs) ≡ (has_ban x bs || has_ban x cs)
has_ban-append x [] cs = refl
has_ban-append x (b ∷ bs) cs = ground (arith, has_ban-append x bs cs)

-- The miss that is recorded for an agent.
abbrev again : Text → Observed → List Text → Miss
again id o fps = record { count = counted (Dict.get id o.misses) + 1; fps = fps }

module _ (mine listed : List Text) (o : Observed) (id : Text) where
  pub info_other :
      (i : Option (List Text × Text)) (x : Text)
      → same id x ≡ false
      → (Dict.get x (observe_info mine listed o id i).misses ≡ Dict.get x o.misses)
        × (has_ban x (observe_info mine listed o id i).bans ≡ has_ban x o.bans)
  unfolding observe_info
  info_other none x h = (refl, refl)
  info_other (some (fps, vmid)) x h = (
    ground (
      arith,
      get-put id x (again id o fps) o.misses,
      get-remove id x o.misses,
      has_ban-append x o.bans (record { agent_id = id; vmid = vmid } ∷ []),
      same_refl id,
    ),
    ground (
      arith,
      get-put id x (again id o fps) o.misses,
      get-remove id x o.misses,
      has_ban-append x o.bans (record { agent_id = id; vmid = vmid } ∷ []),
      same_refl id,
    ),
  )

  pub info_seen :
      (i : Option (List Text × Text)) (x : Text)
      → has_name x o.seen ≡ true
      → has_name x (observe_info mine listed o id i).seen ≡ true
  unfolding observe_info
  info_seen none x h = h
  info_seen (some (fps, vmid)) x h = ground arith

  pub info_missing_first :
      (i : Option (List Text × Text))
      → is_missing mine listed i ≡ true
      → Dict.get id o.misses ≡ none
      → (counted (Dict.get id (observe_info mine listed o id i).misses) ≡ 1)
        × (has_ban id (observe_info mine listed o id i).bans ≡ has_ban id o.bans)
        × (has_name id (observe_info mine listed o id i).seen ≡ true)
  unfolding observe_info
  info_missing_first none m h = cc
  info_missing_first (some (fps, vmid)) m h = (
    ground (
      arith,
      get-put id id (again id o fps) o.misses,
      get-remove id id o.misses,
      has_ban-append id o.bans (record { agent_id = id; vmid = vmid } ∷ []),
      same_refl id,
    ),
    ground (
      arith,
      get-put id id (again id o fps) o.misses,
      get-remove id id o.misses,
      has_ban-append id o.bans (record { agent_id = id; vmid = vmid } ∷ []),
      same_refl id,
    ),
    ground (arith, same_refl id),
  )

  pub info_missing_again :
      (i : Option (List Text × Text))
      → is_missing mine listed i ≡ true
      → counted (Dict.get id o.misses) ≡ 1
      → has_ban id (observe_info mine listed o id i).bans ≡ true
  unfolding observe_info
  info_missing_again none m h = cc
  info_missing_again (some (fps, vmid)) m h = ground (
    arith,
    get-put id id (again id o fps) o.misses,
    get-remove id id o.misses,
    has_ban-append id o.bans (record { agent_id = id; vmid = vmid } ∷ []),
    same_refl id,
  )

  pub info_listed :
      (i : Option (List Text × Text))
      → is_missing mine listed i ≡ false
      → (Dict.get id o.misses ≡ none → Dict.get id (observe_info mine listed o id i).misses ≡ none)
        × (has_ban id (observe_info mine listed o id i).bans ≡ has_ban id o.bans)
  unfolding observe_info
  info_listed none m = ((λ h. h), refl)
  info_listed (some (fps, vmid)) m = (
    (λ h. ground (
      arith,
      get-put id id (again id o fps) o.misses,
      get-remove id id o.misses,
      has_ban-append id o.bans (record { agent_id = id; vmid = vmid } ∷ []),
      same_refl id,
    )),
    ground (
      arith,
      get-put id id (again id o fps) o.misses,
      get-remove id id o.misses,
      has_ban-append id o.bans (record { agent_id = id; vmid = vmid } ∷ []),
      same_refl id,
    ),
  )
