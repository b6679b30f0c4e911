-- ===== src/Reconcile/Pass.antt =====
-- Pass of internal/reconcile/run.go. A target carries what its reader answers in the pass, `none` for a
-- doubtful read, and the SPIRE server is what it lists and which calls it carries out.
pub mod Doubtful
pub mod Order
pub mod Writes
use vtpm_mds.Prelude.{
  ℕ, suc, Bool, true, false, not, if◌then◌else◌, Option, none, some, List, [], ◌∷◌, ◌++◌, map, keep,
  Text,
}
use vtpm_mds.Dict.{Dict}
use vtpm_mds.Reconcile.Diff.{Entry, Alias, Key, entry_key, alias_key, has_key, diff}
use vtpm_mds.Reconcile.Wanted.{Guest, Cluster, wanted}
use vtpm_mds.Reconcile.Bans.{Agent, Ban, Miss, has_name, observe}

pub record Target : Type 0 where
  pub cluster : Cluster
  pub read : Option (List Guest)

-- The calls that change the SPIRE server.
pub data Call : Type 0 where
  create_call : List Alias → Call
  delete_call : List Text → Call
  ban_call : Text → Call

-- spireAPI. Whether a call succeeds may depend on the calls before it.
pub record SpireApi : Type 0 where
  pub entries : Option (List Entry)
  pub agents : Option (List Agent)
  pub accepts : List Call → Call → Bool

-- The errors of Pass, each with the name of the cluster.
pub data PassError : Type 0 where
  list_entries_failed create_failed delete_failed replace_failed list_agents_failed :
      Text → PassError
  ban_failed : Text → Text → PassError

-- The variables of Pass that outlast a round, the tracker, and the calls made.
pub record PassState : Type 0 where
  pub entries : Option (List Entry)
  pub agents : Option (List Agent)
  pub misses : Dict Miss
  pub skipped : ℕ
  pub calls : List Call

-- Whether the pass goes on.
pub data Progress : Type 0 where
  going : PassState → Progress
  stopped : PassState → PassError → Progress

infixl 5 ◌>>=◌
abbrev pub ◌>>=◌ : Progress → (PassState → Progress) → Progress
going s >>= f = f s
stopped s e >>= f = stopped s e

-- doomed and replaced: the keys of the entries to delete.
unfoldable pub replaced_keys : List Text → List Entry → List Key
replaced_keys del [] = []
replaced_keys del (e ∷ es) =
    let rest = replaced_keys del es in if has_name e.id del then entry_key e ∷ rest else rest

abbrev pub is_colliding : List Text → List Entry → Alias → Bool
is_colliding del entries a = has_key (alias_key a) (replaced_keys del entries)

abbrev pub listed {ℓ} : {A : Type ℓ} → Option (List A) → List A
listed none = []
listed (some l) = l

module _ (api : SpireApi) (td : Text) where
  unfoldable pub send : Call → PassError → PassState → Progress
  send c e s =
      let after = record s { calls = s.calls ++ c ∷ [] } in
      if api.accepts s.calls c then going after else stopped after e

  -- No call is made for no aliases, and none for no IDs.
  unfoldable pub send_create : List Alias → PassError → PassState → Progress
  send_create [] e s = going s
  send_create (a ∷ rest) e s = send (create_call (a ∷ rest)) e s

  unfoldable pub send_delete : List Text → PassError → PassState → Progress
  send_delete [] e s = going s
  send_delete (id ∷ rest) e s = send (delete_call (id ∷ rest)) e s

  -- The entries are listed once, before the first cluster that needs them.
  unfoldable pub listing_entries : Text → PassState → Progress
  listing_entries name s = elim s.entries [
    | some es ↦ going s
    | none ↦ elim api.entries [
      | none ↦ stopped s (list_entries_failed name)
      | some es ↦ going (record s { entries = some es })
    ]
  ]

  unfoldable pub listing_agents : Text → PassState → Progress
  listing_agents name s = elim s.agents [
    | some agents ↦ going s
    | none ↦ elim api.agents [
      | none ↦ stopped s (list_agents_failed name)
      | some agents ↦ going (record s { agents = some agents })
    ]
  ]

  -- The creates that collide with no delete, the deletes, and the other creates.
  unfoldable pub write_aliases : Text → List Alias → List Text → PassState → Progress
  unfolding replaced_keys
  write_aliases name create del s =
      send_create (keep (λ a. not (is_colliding del (listed s.entries) a)) create)
        (create_failed name) s
      >>= send_delete del (delete_failed name)
      >>= send_create (keep (is_colliding del (listed s.entries)) create) (replace_failed name)

  unfoldable pub align : Cluster → List Guest → PassState → Progress
  unfolding write_aliases
  align cluster guests s =
      let (create, del) = diff td cluster.name (listed s.entries) (wanted td cluster guests).0 in
      write_aliases cluster.name create del s

  unfoldable pub send_bans : Text → List Ban → PassState → Progress
  send_bans name [] s = going s
  send_bans name (b ∷ bans) s =
      send (ban_call b.agent_id) (ban_failed name b.agent_id) s >>= send_bans name bans

  unfoldable pub ban_agents : Cluster → List Guest → PassState → Progress
  unfolding send_bans
  ban_agents cluster guests s =
      let (misses, bans) =
        observe s.misses cluster.fingerprints (map (λ (g : Guest). g.vmid) guests)
          (listed s.agents) in
      send_bans cluster.name bans (record s { misses = misses })

  unfoldable pub bans_of : Bool → Cluster → List Guest → PassState → Progress
  unfolding ban_agents listing_agents
  bans_of allow_bans cluster guests s =
      if not allow_bans
      then going s
      else listing_agents cluster.name s >>= ban_agents cluster guests

  -- The loop of Pass for a cluster that could be read, and for one that could not.
  unfoldable pub target_step : Bool → Target → PassState → Progress
  unfolding align bans_of listing_entries
  target_step allow_bans t s = elim t.read [
    | none ↦ going (record s { skipped = suc s.skipped })
    | some guests ↦
        listing_entries t.cluster.name s
        >>= align t.cluster guests
        >>= bans_of allow_bans t.cluster guests
  ]

  unfoldable pub pass_loop : Bool → List Target → PassState → Progress
  unfolding target_step
  pass_loop allow_bans [] s = going s
  pass_loop allow_bans (t ∷ targets) s = target_step allow_bans t s >>= pass_loop allow_bans targets

  -- Pass
  unfoldable pub pass : Bool → Dict Miss → List Target → Progress
  unfolding pass_loop
  pass allow_bans misses targets =
      pass_loop allow_bans targets
        (record { entries = none; agents = none; misses = misses; skipped = 0; calls = [] })
