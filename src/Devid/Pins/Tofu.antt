-- ===== src/Devid/Pins/Tofu.antt =====
-- Trust on first use: what ensurePinBeforeIssue of internal/devid/pin.go does to the local pins, and
-- what enforceOwnPin of auth.go accepts from then on.
use vtpm_mds.Prelude.{
  Bool-cases, inl, inr, refl, ◌≡◌, ap, ◌∙◌, ◌↔◌, Bool, true, false, [], arith, if◌then◌else◌, Text,
  same, same_iff, equal_fold, equal_fold_trans, same_refl,
}
use vtpm_mds.Devid.Files.{Dir, Read, contents, missing}
use vtpm_mds.Devid.Pins.{
  pin_store, Result, ok, err, is_empty, validate_vmid, stored_text, read_stored_pin, pin_line,
  all_hex,
}
use vtpm_mds.Devid.Pins.Scan.{
  PinConfig, PinCalls, read_cluster_pin, ensure_pin_before_issue, enforce_own_pin,
}
use vtpm_mds.Devid.Pins.Stored.{stored_text-pin_line}
use vtpm_mds.Devid.Pins.Ensured.{
  Ensured, refused, by_cluster, unpinned, kept, created, cleared, IsOwnFile, ensure_pin-Ensured,
}

-- The pins of a directory whose own file was replaced.
pub read_stored_pin_own :
    (dir after : Dir) (vmid j : Text) (own : Read)
    → IsOwnFile dir vmid own after
    → read_stored_pin after j ≡ (
        if same vmid j
        then if validate_vmid vmid then stored_text own else err pin_store
        else read_stored_pin dir j)
unfolding read_stored_pin
read_stored_pin_own dir after vmid j own h =
    ground (arith, h j, same_iff vmid j, ap validate_vmid {x = vmid} {y = j})

pub blank_is_valid :
    (dir : Dir) (vmid s : Text) → read_stored_pin dir vmid ≡ ok s → validate_vmid vmid ≡ true
unfolding read_stored_pin
blank_is_valid dir vmid s h = ground (arith, h)

-- A pin that stands is never changed, whoever asks and whatever fails.
keeps :
    (e : PinConfig) (dir : Dir) (vmid fp j s : Text) (r : Dir × Result (Unit {0}))
    → read_stored_pin dir j ≡ ok s
    → is_empty s ≡ false
    → Ensured e dir vmid fp r
    → read_stored_pin r.0 j ≡ ok s
keeps e dir vmid fp j s _ read n (refused x) = read
keeps e dir vmid fp j s _ read n (by_cluster pin b _ _ _) = read
keeps e dir vmid fp j s _ read n (unpinned b _ _ _) = read
keeps e dir vmid fp j s _ read n (kept t b _ _ _ _ _ _ _) = read
keeps e dir vmid fp j s _ read n (created after b _ _ _ blank _ _ own) = ground (
  arith,
  read_stored_pin_own dir after vmid j _ own,
  same_iff vmid j,
  ap (read_stored_pin dir) {x = vmid} {y = j},
  blank,
  read,
  n,
)
keeps e dir vmid fp j s _ read n (cleared after x blank own) = ground (
  arith,
  read_stored_pin_own dir after vmid j _ own,
  same_iff vmid j,
  ap (read_stored_pin dir) {x = vmid} {y = j},
  blank,
  read,
  n,
)

-- A pin in the local store that can be read and is not empty reads the same after the pin step of
-- any VM, whatever it answers and whichever of its system calls fail.
pub ensure_pin_keeps :
    (e : PinConfig) (calls : PinCalls) (dir : Dir) (vmid fp j s : Text)
    → read_stored_pin dir j ≡ ok s
    → is_empty s ≡ false
    → read_stored_pin (ensure_pin_before_issue e calls dir vmid fp).0 j ≡ ok s
ensure_pin_keeps e calls dir vmid fp j s read n =
    keeps e dir vmid fp j s (ensure_pin_before_issue e calls dir vmid fp) read n
      (ensure_pin-Ensured e calls dir vmid fp)

-- What enforceOwnPin answers by the pins that it reads.
enforce_by_cluster :
    (e : PinConfig) (dir : Dir) (vmid fp pin s : Text) (b : Bool)
    → e.uses_store ≡ true
    → read_cluster_pin e vmid ≡ ok (pin, b)
    → is_empty pin ≡ false
    → read_stored_pin dir vmid ≡ ok s
    → (enforce_own_pin e dir vmid fp ≡ ok tt) ↔ (equal_fold pin fp ≡ true)
unfolding enforce_own_pin
enforce_by_cluster e dir vmid fp pin s b uses cluster n read =
    simp (uses, cluster, read, n) (ground arith)

enforce_by_store :
    (e : PinConfig) (dir : Dir) (vmid fp s : Text) (b : Bool)
    → e.uses_store ≡ true
    → read_cluster_pin e vmid ≡ ok ([], b)
    → e.require_cluster_pin ≡ false
    → read_stored_pin dir vmid ≡ ok s
    → is_empty s ≡ false
    → (enforce_own_pin e dir vmid fp ≡ ok tt) ↔ (equal_fold s fp ≡ true)
unfolding enforce_own_pin
enforce_by_store e dir vmid fp s b uses cluster required read n =
    simp (uses, cluster, required, read, n) (ground arith)

-- A created pin reads back.
pub created_pin :
    (dir after : Dir) (vmid fp : Text)
    → read_stored_pin dir vmid ≡ ok []
    → all_hex fp ≡ true
    → is_empty fp ≡ false
    → IsOwnFile dir vmid (contents (pin_line fp)) after
    → read_stored_pin after vmid ≡ ok fp
created_pin dir after vmid fp blank hex n file =
    read_stored_pin_own dir after vmid vmid (contents (pin_line fp)) file
    ∙ rw (same_refl vmid, blank_is_valid dir vmid [] blank) (stored_text-pin_line fp hex n)

-- The directories that later pin steps lead to, of any VMs and for fingerprints in lower-case hex, under
-- any configuration and whichever of their system calls fail.
pub data PinSteps (dir : Dir) : Dir → Type 0 where
  no_step : PinSteps dir dir
  stepped :
      {before : Dir}
      → PinSteps dir before
      → (e : PinConfig) (calls : PinCalls) (vmid fp : Text) → all_hex fp ≡ true
      → is_empty fp ≡ false
      → PinSteps dir (ensure_pin_before_issue e calls before vmid fp).0

PinSteps-keep :
    {dir after : Dir} (j s : Text)
    → PinSteps dir after
    → read_stored_pin dir j ≡ ok s
    → is_empty s ≡ false
    → read_stored_pin after j ≡ ok s
PinSteps-keep j s no_step read n = read
PinSteps-keep j s (stepped {before} steps e calls vmid fp hex m) read n =
    ensure_pin_keeps e calls before vmid fp j s (PinSteps-keep j s steps read n) n

missing_is_blank : stored_text missing ≡ ok []
missing_is_blank = refl

-- A pin that can be read can still be read.
stays_readable :
    (e : PinConfig) (dir : Dir) (vmid fp j s : Text) (r : Dir × Result (Unit {0}))
    → all_hex fp ≡ true
    → is_empty fp ≡ false
    → read_stored_pin dir j ≡ ok s
    → Ensured e dir vmid fp r
    → (t : Text) × (read_stored_pin r.0 j ≡ ok t)
stays_readable e dir vmid fp j s _ hex n read (refused x) = (s, read)
stays_readable e dir vmid fp j s _ hex n read (by_cluster pin b _ _ _) = (s, read)
stays_readable e dir vmid fp j s _ hex n read (unpinned b _ _ _) = (s, read)
stays_readable e dir vmid fp j s _ hex n read (kept t b _ _ _ _ _ _ _) = (s, read)
stays_readable e dir vmid fp j s _ hex n read (created after b _ _ _ blank _ _ own) =
    elim (Bool-cases (same vmid j)) [
      | inl q ↦ (
        fp,
        read_stored_pin_own dir after vmid j _ own
            ∙ rw (q, blank_is_valid dir vmid [] blank) (stored_text-pin_line fp hex n),
      )
      | inr q ↦ (s, read_stored_pin_own dir after vmid j _ own ∙ rw q read)
    ]
stays_readable e dir vmid fp j s _ hex n read (cleared after x blank own) =
    elim (Bool-cases (same vmid j)) [
      | inl q ↦ (
        [],
        read_stored_pin_own dir after vmid j _ own
            ∙ rw (q, blank_is_valid dir vmid [] blank) missing_is_blank,
      )
      | inr q ↦ (s, read_stored_pin_own dir after vmid j _ own ∙ rw q read)
    ]

PinSteps-readable :
    {dir after : Dir} (j s : Text)
    → PinSteps dir after
    → read_stored_pin dir j ≡ ok s
    → (t : Text) × (read_stored_pin after j ≡ ok t)
PinSteps-readable j s no_step read = (s, read)
PinSteps-readable j s (stepped {before} steps e calls vmid fp hex n) read =
    let (t, now) = PinSteps-readable j s steps read in
    stays_readable e before vmid fp j t (ensure_pin_before_issue e calls before vmid fp) hex n now
      (ensure_pin-Ensured e calls before vmid fp)

used :
    (e : PinConfig) (dir later : Dir) (vmid fp own next : Text) (r : Dir × Result (Unit {0}))
    → e.uses_store ≡ true
    → read_stored_pin dir vmid ≡ ok own
    → all_hex fp ≡ true
    → is_empty fp ≡ false
    → r.1 ≡ ok tt
    → PinSteps r.0 later
    → Ensured e dir vmid fp r
    → (enforce_own_pin e later vmid next ≡ ok tt) ↔ (equal_fold fp next ≡ true)
used e dir later vmid fp own next _ uses read hex n fine steps (refused x) =
    absurd (ground (arith, fine))
used e dir later vmid fp own next _ uses read hex n fine steps (by_cluster pin b cluster m eq) =
    let (t, now) = PinSteps-readable vmid own steps read in
    ground (
      arith,
      enforce_by_cluster e later vmid next pin t b uses cluster m now,
      equal_fold_trans pin fp next eq,
    )
used e dir later vmid fp own next _ uses read hex n fine steps (unpinned b cluster q u) =
    absurd (ground (arith, uses, u))
used e dir later vmid fp own next _ uses read hex n fine steps (kept s b cluster q u read' m eq _) =
    ground (
      arith,
      enforce_by_store e later vmid next s b u cluster q (PinSteps-keep vmid s steps read' m) m,
      equal_fold_trans s fp next eq,
    )
used e dir later vmid fp own next _ uses read hex n fine steps
      (created after b cluster q u blank m _ file) =
    enforce_by_store e later vmid next fp b u cluster q
      (PinSteps-keep vmid fp steps (created_pin dir after vmid fp blank hex n file) n) n
used e dir later vmid fp own next _ uses read hex n fine steps (cleared after x blank file) =
    absurd (ground (arith, fine))

-- Where the store is in use, the caller's own pin file can be read, and the pin step succeeds for a
-- fingerprint of lower-case hex digits that is not empty, then after any later pin steps, of any
-- VMs for fingerprints of that form, under any configurations and whichever system calls fail, the
-- check of the own pin under the configuration of the first step accepts exactly the fingerprints
-- that equal that one up to case.
pub first_use :
    (e : PinConfig) (calls : PinCalls) (dir later : Dir) (vmid fp own next : Text)
    → e.uses_store ≡ true
    → read_stored_pin dir vmid ≡ ok own
    → all_hex fp ≡ true
    → is_empty fp ≡ false
    → (ensure_pin_before_issue e calls dir vmid fp).1 ≡ ok tt
    → PinSteps (ensure_pin_before_issue e calls dir vmid fp).0 later
    → (enforce_own_pin e later vmid next ≡ ok tt) ↔ (equal_fold fp next ≡ true)
first_use e calls dir later vmid fp own next uses read hex n fine steps =
    used e dir later vmid fp own next (ensure_pin_before_issue e calls dir vmid fp) uses read hex n
      fine steps (ensure_pin-Ensured e calls dir vmid fp)
