-- ===== src/Reconcile/Bans.antt =====
-- BanTracker of internal/reconcile/diff.go. The identifiers of the agents that were seen are a list.
pub mod Agents
pub mod Twice
use vtpm_mds.Prelude.{
  ℕ, ◌+◌, Bool, false, not, ◌&&◌, ◌||◌, ◌==◌, leb, if◌then◌else◌, Option, none, some, List, [], ◌∷◌,
  ◌++◌, length, drop, Text, codes, same, text_lt, has_prefix,
}
use vtpm_mds.Dict
use vtpm_mds.Dict.{Dict}

pub record Agent : Type 0 where
  pub id : Text
  pub selectors : List Text
  pub banned : Bool

pub record Ban : Type 0 where
  pub agent_id : Text
  pub vmid : Text

pub record Miss : Type 0 where
  pub count : ℕ
  pub fps : List Text

abbrev pub fp_prefix : Text
fp_prefix = codes "tpm_devid:ca:fingerprint:"

abbrev pub cn_prefix : Text
cn_prefix = codes "tpm_devid:subject:cn:"

-- The variables of agentInfo.
pub record Info : Type 0 where
  pub fps : List Text
  pub vmid : Text
  pub cns : ℕ

selector_info : Info → Text → Info
selector_info i s =
    if has_prefix fp_prefix s
    then record i { fps = i.fps ++ drop (length fp_prefix) s ∷ [] }
    else if has_prefix cn_prefix s
    then record i { vmid = drop (length cn_prefix) s; cns = i.cns + 1 }
    else i

selectors_info : Info → List Text → Info
unfolding selector_info
selectors_info i [] = i
selectors_info i (s ∷ rest) = selectors_info (selector_info i s) rest

-- agentInfo: the fingerprints and the VM ID, `none` where it is not ok.
unfoldable pub agent_info : Agent → Option (List Text × Text)
unfolding selectors_info
agent_info a =
    let i = selectors_info (record { fps = []; vmid = []; cns = 0 }) a.selectors in
    if a.banned then none else if i.cns == 1 then some (i.fps, i.vmid) else none

unfoldable pub has_name : Text → List Text → Bool
has_name t [] = false
has_name t (u ∷ us) = same u t || has_name t us

-- belongs
unfoldable pub belongs : List Text → List Text → Bool
unfolding has_name
belongs mine [] = false
belongs mine (f ∷ fps) = has_name f mine || belongs mine fps

-- The tracker with the other variables of Observe.
pub record Observed : Type 0 where
  pub misses : Dict Miss
  pub seen : List Text
  pub bans : List Ban

abbrev pub counted : Option Miss → ℕ
counted none = 0
counted (some m) = m.count

-- What the loop does for an agent of the cluster.
unfoldable pub observe_known : List Text → Observed → Text → List Text → Text → Observed
unfolding has_name
observe_known listed o id fps vmid =
    let seen = id ∷ o.seen in
    let n = counted (Dict.get id o.misses) + 1 in
    if has_name vmid listed
    then record o { seen = seen; misses = Dict.remove id o.misses }
    else if leb 2 n
    then record {
      seen = seen;
      bans = o.bans ++ record { agent_id = id; vmid = vmid } ∷ [];
      misses = Dict.remove id o.misses;
    }
    else record o { seen = seen; misses = Dict.put id (record { count = n; fps = fps }) o.misses }

-- What the loop does for an agent, by its agentInfo.
unfoldable pub observe_info :
    List Text → List Text → Observed → Text → Option (List Text × Text) → Observed
unfolding observe_known
observe_info mine listed o id none = o
observe_info mine listed o id (some (fps, vmid)) =
    if belongs mine fps then observe_known listed o id fps vmid else o

unfoldable pub observe_agent : List Text → List Text → Observed → Agent → Observed
unfolding observe_info
observe_agent mine listed o a = observe_info mine listed o a.id (agent_info a)

unfoldable pub observe_loop : List Text → List Text → Observed → List Agent → Observed
unfolding observe_agent
observe_loop mine listed o [] = o
observe_loop mine listed o (a ∷ agents) =
    observe_loop mine listed (observe_agent mine listed o a) agents

-- The misses of the cluster's agents that were not seen are dropped.
unfoldable pub drop_unseen : List Text → List Text → Dict Miss → Dict Miss
unfolding has_name belongs
drop_unseen mine seen [] = []
drop_unseen mine seen ((id, m) ∷ rest) =
    let others = drop_unseen mine seen rest in
    if not (has_name id seen) && belongs mine m.fps then others else (id, m) ∷ others

insert_ban : Ban → List Ban → List Ban
insert_ban b [] = b ∷ []
insert_ban b (c ∷ cs) =
    let rest = insert_ban b cs in if text_lt b.agent_id c.agent_id then b ∷ c ∷ cs else c ∷ rest

sort_bans : List Ban → List Ban
unfolding insert_ban
sort_bans [] = []
sort_bans (b ∷ bs) = insert_ban b (sort_bans bs)

-- Observe
unfoldable pub observe : Dict Miss → List Text → List Text → List Agent → Dict Miss × List Ban
unfolding observe_loop drop_unseen sort_bans
observe misses fingerprints listed agents =
    let o =
      observe_loop fingerprints listed (record { misses = misses; seen = []; bans = [] }) agents in
    (drop_unseen fingerprints o.seen o.misses, sort_bans o.bans)
