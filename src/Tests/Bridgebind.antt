-- ===== src/Tests/Bridgebind.antt =====
-- The table of a bridge with two devices, and a binder that is started beside it.
use vtpm_mds.Prelude.{
  inr, ◌≡◌, ◌≢◌, ◌↔◌, refl, Bool, true, false, none, some, List, [], ◌∷◌, Text, codes, same, All,
}
use vtpm_mds.Proxmox.Nics.{Nic, tap, show_index}
use vtpm_mds.Bridgebind.{
  Outcome, apply_failed, unlisted, applied, Binder, NicsRead, nics_read, rule_text, rules,
  rules_text, render, bound, take_read, read_configs, tick, keep_table, apply_table,
}
use vtpm_mds.Bridgebind.Ports.{Frame, IsOwn, drops, accepts, accepts_iff}
use vtpm_mds.Bridgebind.Ticks.{new_binder, start, ticked, IsWanted, tick_restores}

abbrev bridge : Text
bridge = codes "mds0"

abbrev mac : Text
mac = codes "bc:24:11:00:00:01"

abbrev nics : List Nic
nics =
    record { vmid = codes "350"; index = 1; model = codes "virtio"; mac = mac; bridge = bridge }
    ∷ record { vmid = codes "351"; index = 0; model = []; mac = []; bridge = bridge }
    ∷ []

abbrev forged : Frame
forged = record {
  port = codes "tap350i1";
  tagged = false;
  source = mac;
  arp_sender = some (codes "bc:24:11:00:00:02");
}

drops_forged : accepts (rules bridge nics) forged ≡ false
unfolding drops rules tap show_index same
drops_forged = refl

binds_both : bound bridge nics ≡ 2
unfolding bound same
binds_both = refl

accepts_iff_example :
    accepts (rules bridge nics) forged ≡ true
    ↔ All (λ n. n.bridge ≡ bridge → tap n ≡ forged.port → IsOwn forged n) nics
accepts_iff_example = accepts_iff bridge nics forged

-- The binder after a first tick at which the configurations could be read, but not the table applied.
abbrev first : Binder
first =
    (tick (λ script. script) (new_binder bridge) (codes "a") (nics_read []) none
      (apply_failed (codes "busy"))).0

wants : (tick (λ script. script) first (codes "b") (nics_read nics) none applied).0.want ≢ []
unfolding tick keep_table apply_table read_configs take_read render rules rules_text rule_text tap
    show_index same
wants e = cc

sees : first.seen ≢ none
unfolding tick keep_table apply_table read_configs take_read render rules rules_text rule_text tap
    show_index same
sees e = cc

tick_restores_example :
    (b' : Binder) × (did : Bool) × (tick
        (λ script. script)
        first
        (codes "b")
        (nics_read nics)
        none
        applied
      ≡ (b', some b'.want, did))
    × IsWanted (λ script. script) first (codes "b") (nics_read nics) b'.want
    × ((other : NicsRead) (outcome : Outcome)
        → tick (λ script. script) b' (codes "b") other (some b'.want) outcome
          ≡ (b', some b'.want, false))
tick_restores_example =
    tick_restores (λ script. script) (codes "b") (nics_read nics) none
      (ticked (start bridge) (codes "a") (nics_read []) none (apply_failed (codes "busy"))) wants
      (inr sees)

-- A binder that could not list the table which it applied.
abbrev blind : Binder
blind = (tick (λ script. script) (new_binder bridge) (codes "a") (nics_read nics) none unlisted).0

-- It does not restore the table when that is gone.
misses : (tick (λ script. script) blind (codes "a") (nics_read nics) none applied).1 ≡ none
unfolding tick keep_table apply_table read_configs take_read render rules rules_text rule_text tap
    show_index same
misses = refl
