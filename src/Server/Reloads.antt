-- ===== src/Server/Reloads.antt =====
-- The cache follows the inventory source.
use vtpm_mds.Prelude.{
  ℕ, ◌≡◌, refl, Bool, true, false, none, some, Option, [], Text, same, inl, inr, Bool-cases, length,
  if◌then◌else◌, value_or, List, ◌∷◌,
}
use vtpm_mds.Dict.{Dict}
use vtpm_mds.Inventory.{VmConfig}
use vtpm_mds.Server.{
  Server, Source, new_server, refresh_vm_config_cache, reload_now, reload_if_changed, is_last,
  is_recent, readiness,
}

abbrev pub is_some : Option Source → Bool
is_some none = false
is_some (some source) = true

abbrev pub loads : Source → Bool
loads source = elim (source.vms) [ none ↦ false | some vms ↦ true ]

-- The last read that loaded.
abbrev pub better : Source → Option Source → Option Source
better read good = if loads read then some read else good

abbrev pub cache_of : Option Source → Dict VmConfig
cache_of none = []
cache_of (some source) = value_or [] source.vms

-- A CA check: its time and its result.
abbrev pub Check : Type 0
Check = ℕ × Bool

-- The servers that reloads, polls and health requests lead to, with the fingerprinted and the loaded
-- source of the last attempt, the last read that loaded, and the CA checks that health requests could
-- make.
pub data Reach : Server → Source → Source → Option Source → List Check → Type 0 where
  start :
      (topology : Dict Text) (seen read : Source) (now : ℕ)
      → Reach (reload_now (new_server topology) seen read now).0 seen read (better read none) []
  hangup :
      {s : Server} {a b : Source} {good : Option Source} {checks : List Check}
      → Reach s a b good checks
      → (seen read : Source) (now : ℕ)
      → Reach (reload_now s seen read now).0 seen read (better read good) checks
  changed :
      {s : Server} {a b : Source} {good : Option Source} {checks : List Check}
      → Reach s a b good checks
      → (seen read : Source) (now : ℕ) → is_last s.last seen.fingerprint ≡ false
      → Reach (reload_if_changed s seen read now).0 seen read (better read good) checks
  unchanged :
      {s : Server} {a b : Source} {good : Option Source} {checks : List Check}
      → Reach s a b good checks
      → (seen read : Source) (now : ℕ) → is_last s.last seen.fingerprint ≡ true
      → Reach (reload_if_changed s seen read now).0 a b good checks
  health :
      {s : Server} {a b : Source} {good : Option Source} {checks : List Check}
      → Reach s a b good checks
      → (attestation : Bool) (now : ℕ) (checked : Bool)
      → Reach (readiness attestation s now checked).0 a b good ((now, checked) ∷ checks)

pub record IsCurrent (s : Server) (seen read : Source) (good : Option Source) : Type 0 where
  pub attempted : s.last ≡ some seen.fingerprint
  pub holds : s.cache ≡ cache_of good
  pub counted : s.vm_count ≡ length (cache_of good)
  pub placed : (source : Source) → good ≡ some source → s.topology ≡ source.topology
  pub is_loaded : s.inventory_loaded ≡ is_some good
  pub faulted : same s.last_error_class [] ≡ loads read
  pub newest : loads read ≡ true → good ≡ some read

abbrev source : Text → Option (Dict VmConfig) → Dict Text → Source
source fp vms topology = record { fingerprint = fp; vms = vms; topology = topology }

-- A refresh of a server that remembers the fingerprint of `seen`.
refreshed :
    (s : Server) (seen : Source) (good : Option Source) (now : ℕ) (fp : Text)
    (vms : Option (Dict VmConfig)) (topology : Dict Text)
    → s.cache ≡ cache_of good
    → s.vm_count ≡ length (cache_of good)
    → ((x : Source) → good ≡ some x → s.topology ≡ x.topology)
    → s.inventory_loaded ≡ is_some good
    → IsCurrent
        (refresh_vm_config_cache
          (record s { last = some seen.fingerprint })
          (source fp vms topology)
          now).0
        seen
        (source fp vms topology)
        (better (source fp vms topology) good)
unfolding refresh_vm_config_cache same
refreshed s seen good now fp none topology c n t l = record {
  attempted = refl;
  holds = c;
  counted = n;
  placed = t;
  is_loaded = l;
  faulted = refl;
  newest = λ h. cc;
}
refreshed s seen good now fp (some vms) topology c n t l = record {
  attempted = refl;
  holds = refl;
  counted = refl;
  placed = λ x h. cc;
  is_loaded = refl;
  faulted = refl;
  newest = λ h. refl;
}

reloaded :
    {s : Server} {a b : Source} {good : Option Source} (seen read : Source) (now : ℕ)
    → IsCurrent s a b good
    → IsCurrent (reload_now s seen read now).0 seen read (better read good)
unfolding reload_now
reloaded {s} {a} {b} {good} seen read now v =
    refreshed s seen good now read.fingerprint read.vms read.topology v.holds v.counted v.placed
      v.is_loaded

-- A check that finds another fingerprint reloads.
checked_new :
    (s : Server) (seen read : Source) (now : ℕ)
    → is_last s.last seen.fingerprint ≡ false
    → (reload_if_changed s seen read now).0 ≡ (reload_now s seen read now).0
unfolding reload_if_changed reload_now
checked_new s seen read now e = rw e

pub checked_same :
    (s : Server) (seen read : Source) (now : ℕ)
    → is_last s.last seen.fingerprint ≡ true
    → (reload_if_changed s seen read now).0 ≡ s
unfolding reload_if_changed
checked_same s seen read now e = rw e

abbrev pub with_ca : Server → Bool → Option ℕ → Server
with_ca s ok at = record s { ca_readable = ok; ca_checked_at = at }

-- A health request changes what is known of the CA files and nothing else.
pub readiness-with_ca :
    (attestation : Bool) (s : Server) (now : ℕ) (checked : Bool)
    → (ok : Bool) × (at : Option ℕ) × ((readiness attestation s now checked).0 ≡ with_ca s ok at)
unfolding readiness
readiness-with_ca false s now checked = (s.ca_readable, s.ca_checked_at, refl)
readiness-with_ca true s now checked = elim (Bool-cases (is_recent s.ca_checked_at now)) [
  | inl e ↦ (s.ca_readable, s.ca_checked_at, rw e refl)
  | inr e ↦ (checked, some now, rw e refl)
]

with_ca-IsCurrent :
    (s : Server) {a b : Source} {good : Option Source} (ok : Bool) (at : Option ℕ)
    → IsCurrent s a b good
    → IsCurrent (with_ca s ok at) a b good
with_ca-IsCurrent s ok at v = record {
  attempted = v.attempted;
  holds = v.holds;
  counted = v.counted;
  placed = v.placed;
  is_loaded = v.is_loaded;
  faulted = v.faulted;
  newest = v.newest;
}

-- After any sequence of reloads, polls and health requests, the server remembers the fingerprint of
-- the last attempt, the cache, its count and the topology are those of the last read that loaded,
-- the inventory counts as loaded exactly if there is one, and there is no error class exactly if
-- the last attempt loaded.
pub Reach-IsCurrent :
    {s : Server} {seen read : Source} {good : Option Source} {checks : List Check}
    → Reach s seen read good checks
    → IsCurrent s seen read good
unfolding reload_now
Reach-IsCurrent (start topology seen read now) =
    refreshed (new_server topology) seen none now read.fingerprint read.vms read.topology refl refl
      (λ x h. cc) refl
Reach-IsCurrent (hangup r seen read now) = reloaded seen read now (Reach-IsCurrent r)
Reach-IsCurrent (changed {s} r seen read now e) =
    rw (checked_new s seen read now e) (reloaded seen read now (Reach-IsCurrent r))
Reach-IsCurrent (unchanged {s} r seen read now e) =
    rw (checked_same s seen read now e) (Reach-IsCurrent r)
Reach-IsCurrent (health {s} r attestation now checked) =
    let (ok, at, e) = readiness-with_ca attestation s now checked in
    rw e (with_ca-IsCurrent s ok at (Reach-IsCurrent r))
