-- ===== src/Bridgebind/Ticks.antt =====
-- The table follows the guest configurations.
use vtpm_mds.Prelude.{
  ◌≡◌, ◌≢◌, ◌∙◌, ◌⊎◌, refl, sym, ap, subst, Bool, true, false, not, ◌&&◌, Option, none, some, List,
  [], arith, Text, same, same_iff, same_refl, same_ne, Bool-cases, inl, inr,
}
use vtpm_mds.Proxmox.Nics.{Nic}
use vtpm_mds.Bridgebind.{
  Outcome, apply_failed, unlisted, applied, Binder, NicsRead, nics_read, read_failed, render,
  take_read, read_configs, apply_table, tick, keep_table, is_same,
}

-- A binder before its first tick.
abbrev pub new_binder : Text → Binder
new_binder bridge = record {
  bridge = bridge;
  fp = none;
  want = [];
  ports = 0;
  seen = some [];
  failing = false;
  fail_msg = [];
  read_msg = [];
}

is_same_eq : (s t : Option Text) → is_same s t ≡ true → s ≡ t
is_same_eq none none h = refl
is_same_eq none (some t) h = cc
is_same_eq (some s) none h = cc
is_same_eq (some s) (some t) h = ap some ((same_iff s t).0 h)

is_same_refl : (s : Option Text) → is_same s s ≡ true
is_same_refl none = refl
is_same_refl (some s) = same_refl s

module _ (listing : Text → Text) where
  -- The binders that ticks lead to. Between two ticks the table may become any other.
  pub data Reach : Binder → Type 0 where
    start : (bridge : Text) → Reach (new_binder bridge)
    ticked :
        {b : Binder}
        → Reach b
        → (fp : Text) (read : NicsRead) (table : Option Text) (outcome : Outcome)
        → Reach (tick listing b fp read table outcome).0

  -- A binder that is not failing and wants a table has listed it as it was applied, or could not list
  -- it then.
  abbrev pub IsSettled : Binder → Type 0
  IsSettled b = b.failing ≡ false → b.want ≢ [] → (b.seen ≡ some (listing b.want)) ⊎ (b.seen ≡ none)

  -- A tick that left the table as it is wanted.
  abbrev IsDone : Binder → Binder × Option Text × Bool → Type 0
  IsDone b r =
      (r.1 ≡ some (listing r.0.want))
      × (r.0.failing ≡ false)
      × (r.0.seen ≡ r.1)
      × (r.0.want ≡ b.want)
      × (r.0.fp ≡ b.fp)

  -- The table is found, or the last one that was applied could be listed.
  abbrev pub CanTell : Option Text → Option Text → Type 0
  CanTell seen table = (table ≢ none) ⊎ (seen ≢ none)

  settled_seen :
      (b : Binder) (table : Option Text)
      → table ≡ b.seen
      → CanTell b.seen table
      → (b.seen ≡ some (listing b.want)) ⊎ (b.seen ≡ none)
      → b.seen ≡ some (listing b.want)
  settled_seen b table e k (inl q) = q
  settled_seen b table e (inl found) (inr q) = absurd (found (e ∙ q))
  settled_seen b table e (inr listed) (inr q) = absurd (listed q)

  module _ (b : Binder) (changed : Bool) (table : Option Text) where
    keep_table-IsSettled :
        (outcome : Outcome)
        → (changed ≡ false → IsSettled b)
        → IsSettled (keep_table listing (b, changed) table outcome).0
    unfolding keep_table apply_table
    keep_table-IsSettled outcome h = elim (Bool-cases (same b.want [])) [
      | inl e ↦ rw e (λ f w. absurd (w ((same_iff b.want []).0 e)))
      | inr e ↦ elim (Bool-cases (not changed && not b.failing && is_same table b.seen)) [
        | inl q ↦ rw (e, q) (h (ground arith))
        | inr q ↦ rw (e, q) (settled outcome)
      ]
    ]
      where
        settled : (outcome : Outcome) → IsSettled (apply_table listing b table outcome).0
        settled applied f w = inl refl
        settled unlisted f w = inr refl
        settled (apply_failed message) f w = cc

    -- Once the table is wanted and can be applied, it is there, and the binder has seen it.
    keep_table_restores :
        (changed ≡ false → IsSettled b)
        → b.want ≢ []
        → CanTell b.seen table
        → IsDone b (keep_table listing (b, changed) table applied)
    unfolding keep_table apply_table
    keep_table_restores h w k =
        rw (same_ne b.want [] w)
          (elim (Bool-cases (not changed && not b.failing && is_same table b.seen)) [
            | inl q ↦
                let here : table ≡ b.seen = is_same_eq table b.seen (ground arith) in
                let seen = settled_seen b table here k (h (ground arith) (ground arith) w) in
                rw q (here ∙ seen, ground arith, sym here, refl, refl)
            | inr q ↦ rw q (refl, refl, refl, refl, refl)
          ])

  -- A read keeps what is known of the table.
  read_keeps :
      (b : Binder) (fp : Text) (read : NicsRead)
      → IsSettled b
      → (read_configs b fp read).1 ≡ false
      → IsSettled (read_configs b fp read).0
  unfolding read_configs take_read
  read_keeps b fp (read_failed message) h e = elim (Bool-cases (is_same b.fp (some fp))) [
    | inl q ↦ rw q h
    | inr q ↦ rw q h
  ]
  read_keeps b fp (nics_read nics) h e = elim (Bool-cases (is_same b.fp (some fp))) [
    | inl q ↦ rw q h
    | inr q ↦ elim (Bool-cases (same (render b.bridge nics) b.want)) [
      | inl k ↦ rw (q, k) h
      | inr k ↦ let no : true ≡ false = rw k at (rw q at e) in cc
    ]
  ]

  tick-IsSettled :
      (b : Binder) (fp : Text) (read : NicsRead) (table : Option Text) (outcome : Outcome)
      → IsSettled b
      → IsSettled (tick listing b fp read table outcome).0
  unfolding tick
  tick-IsSettled b fp read table outcome h =
      keep_table-IsSettled (read_configs b fp read).0 (read_configs b fp read).1 table outcome
        (read_keeps b fp read h)

  Reach-IsSettled : {b : Binder} → Reach b → IsSettled b
  Reach-IsSettled (start bridge) = λ f w. absurd (w refl)
  Reach-IsSettled (ticked {b} r fp read table outcome) =
      tick-IsSettled b fp read table outcome (Reach-IsSettled r)

  read_fp : (b : Binder) (fp : Text) (read : NicsRead) → (read_configs b fp read).0.fp ≡ some fp
  unfolding read_configs take_read
  read_fp b fp (read_failed message) = elim (Bool-cases (is_same b.fp (some fp))) [
    | inl q ↦ rw q (is_same_eq b.fp (some fp) q)
    | inr q ↦ rw q refl
  ]
  read_fp b fp (nics_read nics) = elim (Bool-cases (is_same b.fp (some fp))) [
    | inl q ↦ rw q (is_same_eq b.fp (some fp) q)
    | inr q ↦ elim (Bool-cases (same (render b.bridge nics) b.want)) [
      | inl k ↦ rw (q, k) refl
      | inr k ↦ rw (q, k) refl
    ]
  ]

  read_seen : (b : Binder) (fp : Text) (read : NicsRead) → (read_configs b fp read).0.seen ≡ b.seen
  unfolding read_configs take_read
  read_seen b fp (read_failed message) = elim (Bool-cases (is_same b.fp (some fp))) [
    | inl q ↦ rw q refl
    | inr q ↦ rw q refl
  ]
  read_seen b fp (nics_read nics) = elim (Bool-cases (is_same b.fp (some fp))) [
    | inl q ↦ rw q refl
    | inr q ↦ elim (Bool-cases (same (render b.bridge nics) b.want)) [
      | inl k ↦ rw (q, k) refl
      | inr k ↦ rw (q, k) refl
    ]
  ]

  -- The table wanted after a read: the old one if the source is as before or cannot be read, else the
  -- rendering of the devices read.
  abbrev pub IsWanted : Binder → Text → NicsRead → Text → Type 0
  IsWanted b fp read want =
      ((b.fp ≡ some fp) × (want ≡ b.want))
      ⊎ (((message : Text) × (read ≡ read_failed message) × (want ≡ b.want))
          ⊎ ((nics : List Nic) × (read ≡ nics_read nics) × (want ≡ render b.bridge nics)))

  read_wants :
      (b : Binder) (fp : Text) (read : NicsRead)
      → IsWanted b fp read (read_configs b fp read).0.want
  unfolding read_configs take_read
  read_wants b fp (read_failed message) = elim (Bool-cases (is_same b.fp (some fp))) [
    | inl q ↦ inl (is_same_eq b.fp (some fp) q, rw q refl)
    | inr q ↦ inr (inl (message, refl, rw q refl))
  ]
  read_wants b fp (nics_read nics) = elim (Bool-cases (is_same b.fp (some fp))) [
    | inl q ↦ inl (is_same_eq b.fp (some fp) q, rw q refl)
    | inr q ↦ elim (Bool-cases (same (render b.bridge nics) b.want)) [
      | inl k ↦
          inr (inr (nics, refl, rw (q, k) (sym ((same_iff (render b.bridge nics) b.want).0 k))))
      | inr k ↦ inr (inr (nics, refl, rw (q, k) refl))
    ]
  ]

  keep_table_want :
      (b : Binder) (changed : Bool) (table : Option Text)
      → (keep_table listing (b, changed) table applied).0.want ≡ b.want
  unfolding keep_table apply_table
  keep_table_want b changed table = elim (Bool-cases (same b.want [])) [
    | inl e ↦ rw e refl
    | inr e ↦ elim (Bool-cases (not changed && not b.failing && is_same table b.seen)) [
      | inl q ↦ rw (e, q) refl
      | inr q ↦ rw (e, q) refl
    ]
  ]

  -- A done tick leaves nothing to do while the source and the table stay.
  quiet :
      (b : Binder) (fp : Text) (read : NicsRead)
      → b.fp ≡ some fp
      → b.failing ≡ false
      → b.want ≢ []
      → (outcome : Outcome) → tick listing b fp read b.seen outcome ≡ (b, b.seen, false)
  unfolding tick keep_table read_configs
  quiet b fp read f i w outcome =
      rw (f, is_same_refl (some fp), same_ne b.want [] w, i, is_same_refl b.seen) refl

  module _ {b : Binder} (fp : Text) (read : NicsRead) (table : Option Text) (r : Reach b) where
    abbrev tick_result : Binder × Option Text × Bool
    tick_result = tick listing b fp read table applied

    tick-IsDone :
        tick_result.0.want ≢ []
        → CanTell b.seen table
        → IsDone (read_configs b fp read).0 tick_result
    unfolding tick
    tick-IsDone w k =
        keep_table_restores (read_configs b fp read).0 (read_configs b fp read).1 table
          (read_keeps b fp read (Reach-IsSettled r))
          (λ e. w (keep_table_want (read_configs b fp read).0 (read_configs b fp read).1 table ∙ e))
          (subst (λ s. CanTell s table) (sym (read_seen b fp read)) k)

    -- After any sequence of ticks, whatever became of the table in between, a tick that wants a
    -- table and whose apply would succeed and could be listed leaves the table as it is wanted, if
    -- it finds the table or the binder could list the last one that it applied; it wants the old
    -- table if the source is as before or cannot be read and the rendering of the devices read
    -- otherwise, and the next tick that finds the same source and table changes nothing and applies
    -- nothing.
    pub tick_restores :
        tick_result.0.want ≢ []
        → CanTell b.seen table
        → (b' : Binder) × (did : Bool) × (tick_result ≡ (b', some (listing b'.want), did))
          × IsWanted b fp read b'.want
          × ((other : NicsRead) (outcome : Outcome)
              → tick listing b' fp other (some (listing b'.want)) outcome
                ≡ (b', some (listing b'.want), false))
    tick_restores w k =
        let (there, idle, sees, wants, known) = tick-IsDone w k in
        (
          tick_result.0,
          tick_result.2,
          ap (λ t. (tick_result.0, t, tick_result.2)) there,
          subst (IsWanted b fp read) (sym wants) (read_wants b fp read),
          (λ other outcome.
              subst (λ t. tick listing tick_result.0 fp other t outcome ≡ (tick_result.0, t, false))
                (sees ∙ there)
                (quiet tick_result.0 fp other (known ∙ read_fp b fp read) idle w outcome)),
        )
