-- ===== src/Devid/Pins/Ensured.antt =====
-- Every way ensurePinBeforeIssue of internal/devid/pin.go can end.
use vtpm_mds.Prelude.{
  ◌≡◌, ◌≢◌, refl, inl, inr, Bool, true, false, not, ◌&&◌, ◌||◌, [], ◌∷◌, arith, if◌then◌else◌, Text,
  same, equal_fold, Bool-cases,
}
use vtpm_mds.Devid.Files.{Dir, Read, missing, failed, is_directory, contents, read_file}
use vtpm_mds.Devid.Pins.{
  EnrollError, pin_store, unauthorized, already_pinned, Result, ok, err, is_empty, validate_vmid,
  read_stored_pin, pin_line, with_pin, link_pin, create_stored_pin_exclusive,
  err_stored_pin_mismatch, err_pinned_elsewhere, err_cluster_pin_mismatch, err_no_cluster_pin,
  is_blocked,
}
use vtpm_mds.Devid.Pins.Scan.{
  PinConfig, PinCalls, read_cluster_pin, pinned_to_another_vm, without_pin, after_conflict,
  after_create, after_scan, after_stored, after_cluster, ensure_pin_before_issue,
}
use vtpm_mds.Devid.Pins.Stored.{read_file-with_pin, read_file-without_pin}

-- The directory with another file, or none, under the name of the VM.
abbrev pub IsOwnFile : Dir → Text → Read → Dir → Type 0
IsOwnFile dir vmid own after =
    (j : Text) → read_file after j ≡ (if same vmid j then own else read_file dir j)

-- refused: an error, nothing written. by_cluster: the cluster pin decides. unpinned: pins are off.
-- kept: the local pin matches. created: there was none. cleared: the blank file is gone, and the
-- create after its removal failed.
pub data Ensured (e : PinConfig) (dir : Dir) (vmid fp : Text)
    : Dir × Result (Unit {0}) → Type 0 where
  refused : (x : EnrollError) → Ensured e dir vmid fp (dir, err x)
  by_cluster :
      (pin : Text) (b : Bool)
      → read_cluster_pin e vmid ≡ ok (pin, b)
      → is_empty pin ≡ false
      → equal_fold pin fp ≡ true
      → Ensured e dir vmid fp (dir, ok tt)
  unpinned :
      (b : Bool)
      → read_cluster_pin e vmid ≡ ok ([], b)
      → e.require_cluster_pin ≡ false
      → e.uses_store ≡ false
      → Ensured e dir vmid fp (dir, ok tt)
  kept :
      (stored : Text) (b : Bool)
      → read_cluster_pin e vmid ≡ ok ([], b)
      → e.require_cluster_pin ≡ false
      → e.uses_store ≡ true
      → read_stored_pin dir vmid ≡ ok stored
      → is_empty stored ≡ false
      → equal_fold stored fp ≡ true
      → pinned_to_another_vm e dir vmid fp ≡ ok []
      → Ensured e dir vmid fp (dir, ok tt)
  created :
      (after : Dir) (b : Bool)
      → read_cluster_pin e vmid ≡ ok ([], b)
      → e.require_cluster_pin ≡ false
      → e.uses_store ≡ true
      → read_stored_pin dir vmid ≡ ok []
      → is_empty fp ≡ false
      → pinned_to_another_vm e dir vmid fp ≡ ok []
      → IsOwnFile dir vmid (contents (pin_line fp)) after
      → Ensured e dir vmid fp (after, ok tt)
  cleared :
      (after : Dir) (x : EnrollError)
      → read_stored_pin dir vmid ≡ ok []
      → IsOwnFile dir vmid missing after
      → Ensured e dir vmid fp (after, err x)

is_empty_text : (s : Text) → is_empty s ≡ true → s ≡ []
is_empty_text [] h = refl
is_empty_text (c ∷ s) h = ground (arith, h)

-- A create that finds no file writes the pin; any other leaves the directory.
create_cases {ℓ} :
    (P : Dir × Result (Unit {0}) → Type ℓ) (dir : Dir) (vmid fp : Text) (works : Bool)
    → P (dir, err pin_store)
    → P (dir, err already_pinned)
    → (is_empty fp ≡ false → read_file dir vmid ≡ missing → P (with_pin dir vmid fp, ok tt))
    → P (create_stored_pin_exclusive dir vmid fp works)
unfolding create_stored_pin_exclusive
create_cases P dir vmid fp works store conflict linked =
    elim (Bool-cases (is_empty fp || not (validate_vmid vmid) || is_blocked dir || not works)) [
      | inl e ↦ rw e store
      | inr e ↦ rw e (by_read e (read_file dir vmid) refl)
    ]
  where
    by_read :
        (is_empty fp || not (validate_vmid vmid) || is_blocked dir || not works) ≡ false
        → (r : Read) → read_file dir vmid ≡ r
        → P (link_pin dir vmid fp r)
    by_read g missing e = linked (ground (arith, g)) e
    by_read g failed e = conflict
    by_read g is_directory e = conflict
    by_read g (contents t) e = conflict

blank_not_failed :
    (dir : Dir) (vmid : Text) → read_stored_pin dir vmid ≡ ok [] → read_file dir vmid ≢ failed
unfolding read_stored_pin
blank_not_failed dir vmid h f = ground (arith, h, f)

-- The stages of ensurePinBeforeIssue from the last to the first.
module _ (e : PinConfig) (calls : PinCalls) (dir : Dir) (vmid fp : Text) where
  module _ (b : Bool) (no_cluster_pin : read_cluster_pin e vmid ≡ ok ([], b))
      (not_required : e.require_cluster_pin ≡ false) (uses : e.uses_store ≡ true) where
    module _ (blank : read_stored_pin dir vmid ≡ ok [])
        (unshared : pinned_to_another_vm e dir vmid fp ≡ ok []) where
      gone : IsOwnFile dir vmid missing (without_pin dir vmid)
      gone j = read_file-without_pin dir vmid j (blank_not_failed dir vmid blank)

      replaced :
          read_file (without_pin dir vmid) vmid ≡ missing
          → IsOwnFile dir vmid (contents (pin_line fp)) (with_pin (without_pin dir vmid) vmid fp)
      replaced h j = ground (arith, read_file-with_pin (without_pin dir vmid) vmid fp j h, gone j)

      -- A create in the directory as it was, where `conflict` is what a file in its way leads to.
      Ensured-create :
          (works : Bool) (k : Dir × Result (Unit {0}) → Dir × Result (Unit {0}))
          → k (dir, err pin_store) ≡ (dir, err pin_store)
          → ((d : Dir) → k (d, ok tt) ≡ (d, ok tt))
          → Ensured e dir vmid fp (k (dir, err already_pinned))
          → Ensured e dir vmid fp (k (create_stored_pin_exclusive dir vmid fp works))
      Ensured-create works k store fine conflict =
          create_cases (λ r. Ensured e dir vmid fp (k r)) dir vmid fp works
            (rw store (refused pin_store)) conflict
            (λ nonempty none_there. rw (fine (with_pin dir vmid fp)) (
              created (with_pin dir vmid fp) b no_cluster_pin not_required uses blank nonempty
                unshared (λ j. read_file-with_pin dir vmid fp j none_there)))

      Ensured-after_conflict : Ensured e dir vmid fp (after_conflict calls dir vmid fp (ok []))
      Ensured-after_conflict = elim (Bool-cases calls.removes) [
        | inl r ↦ rw r (
            create_cases (Ensured e dir vmid fp) (without_pin dir vmid) vmid fp calls.recreates
              (cleared (without_pin dir vmid) pin_store blank gone)
              (cleared (without_pin dir vmid) already_pinned blank gone)
              (λ nonempty none_there.
                created (with_pin (without_pin dir vmid) vmid fp) b no_cluster_pin not_required uses
                  blank nonempty unshared (replaced none_there)))
        | inr r ↦
            rw r (Ensured-create calls.recreates (λ r. r) refl (λ d. refl) (refused already_pinned))
      ]

      Ensured-after_scan : Ensured e dir vmid fp (after_scan calls dir vmid fp [] (ok []))
      Ensured-after_scan =
          Ensured-create calls.creates (after_create calls vmid fp) refl (λ d. refl)
            (rw blank Ensured-after_conflict)

    Ensured-after_stored :
        (stored : Text)
        → read_stored_pin dir vmid ≡ ok stored
        → (not (is_empty stored) && not (equal_fold stored fp)) ≡ false
        → (scan : Result Text) → pinned_to_another_vm e dir vmid fp ≡ scan
        → Ensured e dir vmid fp (after_scan calls dir vmid fp stored scan)
    Ensured-after_stored stored read own (err x) eq = refused x
    Ensured-after_stored [] read own (ok []) eq = Ensured-after_scan read eq
    Ensured-after_stored (c ∷ s) read own (ok []) eq =
        kept (c ∷ s) b no_cluster_pin not_required uses read refl (ground (arith, own)) eq
    Ensured-after_stored stored read own (ok (c ∷ other)) eq =
        refused (unauthorized err_pinned_elsewhere)

    Ensured-with_stored :
        (own : Result Text)
        → read_stored_pin dir vmid ≡ own
        → Ensured e dir vmid fp (after_stored e calls dir vmid fp own)
    Ensured-with_stored (err x) read = refused x
    Ensured-with_stored (ok stored) read =
        elim (Bool-cases (not (is_empty stored) && not (equal_fold stored fp))) [
          | inl g ↦ rw g (refused (unauthorized err_stored_pin_mismatch))
          | inr g ↦
              rw g (Ensured-after_stored stored read g (pinned_to_another_vm e dir vmid fp) refl)
        ]

  Ensured-without_cluster :
      (b : Bool)
      → read_cluster_pin e vmid ≡ ok ([], b)
      → (required uses : Bool) → e.require_cluster_pin ≡ required
      → e.uses_store ≡ uses
      → Ensured e dir vmid fp (
          if required
          then (dir, err (unauthorized err_no_cluster_pin))
          else if not uses
          then (dir, ok tt)
          else after_stored e calls dir vmid fp (read_stored_pin dir vmid))
  Ensured-without_cluster b read true uses q u = refused (unauthorized err_no_cluster_pin)
  Ensured-without_cluster b read false false q u = unpinned b read q u
  Ensured-without_cluster b read false true q u =
      Ensured-with_stored b read q u (read_stored_pin dir vmid) refl

  Ensured-with_cluster :
      (cluster : Result (Text × Bool))
      → read_cluster_pin e vmid ≡ cluster
      → Ensured e dir vmid fp (after_cluster e calls dir vmid fp cluster)
  Ensured-with_cluster (err x) read = refused x
  Ensured-with_cluster (ok (c ∷ pin, b)) read = elim (Bool-cases (equal_fold (c ∷ pin) fp)) [
    | inl g ↦ rw g (by_cluster (c ∷ pin) b read refl g)
    | inr g ↦ rw g (refused (unauthorized err_cluster_pin_mismatch))
  ]
  Ensured-with_cluster (ok ([], b)) read =
      Ensured-without_cluster b read e.require_cluster_pin e.uses_store refl refl

  pub ensure_pin-Ensured : Ensured e dir vmid fp (ensure_pin_before_issue e calls dir vmid fp)
  unfolding ensure_pin_before_issue
  ensure_pin-Ensured = Ensured-with_cluster (read_cluster_pin e vmid) refl
