-- ===== src/Tests/Bans.antt =====
-- An agent whose VM goes away.
use vtpm_mds.Prelude.{◌≡◌, refl, true, false, [], ◌∷◌, ◌&&◌, List, Text, codes, same, has_prefix}
use vtpm_mds.Dict
use vtpm_mds.Reconcile.Bans.{Agent, observe, agent_info, belongs, has_name}
use vtpm_mds.Reconcile.Bans.Agents.{has_ban}
use vtpm_mds.Reconcile.Bans.Twice.{missed, banned_after_two_misses}

abbrev agent : Agent
agent = record {
  id = codes "a1";
  selectors = codes "tpm_devid:ca:fingerprint:ff" ∷ codes "tpm_devid:subject:cn:350" ∷ [];
  banned = false;
}

abbrev mine : List Text
mine = codes "ff" ∷ []

missed_once : missed mine [] (codes "a1") (agent ∷ []) ≡ true
unfolding agent_info belongs has_name same has_prefix
missed_once = refl

banned_after_two_misses_example :
    (has_ban (codes "a1") (observe [] mine [] (agent ∷ [])).1 ≡ false)
    × (has_ban (codes "a1") (observe (observe [] mine [] (agent ∷ [])).0 mine [] (agent ∷ [])).1
        ≡ (missed mine [] (codes "a1") (agent ∷ []) && missed mine [] (codes "a1") (agent ∷ [])))
unfolding Dict.get
banned_after_two_misses_example =
    banned_after_two_misses mine [] [] [] (agent ∷ []) (agent ∷ []) (codes "a1") (refl, tt)
      (refl, tt) refl
