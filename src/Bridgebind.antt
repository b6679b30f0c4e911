-- ===== src/Bridgebind.antt =====
-- The table that binds the ports of the metadata bridge: internal/bridgebind/render.go and binder.go.
-- The rules that Render writes are a list of `Rule`, which `rule_text` spells. The nft binary is the
-- table of the kernel, which an apply replaces by the listing of the script.
pub mod Ports
pub mod Ticks
use vtpm_mds.Prelude.{
  ℕ, suc, Bool, true, false, not, ◌&&◌, ◌||◌, if◌then◌else◌, Option, none, some, List, [], ◌∷◌,
  ◌++◌, Text, codes, same,
}
use vtpm_mds.Proxmox.Nics.{Nic, tap}

-- Table
abbrev pub table_name : Text
table_name = codes "vtpm_mds_bind"

pub data Rule : Type 0 where
  drop_all drop_tagged : Text → Rule
  drop_other_source drop_other_arp : Text → Text → Rule

abbrev quoted : Text → Text
quoted name = b'"' ∷ name ++ b'"' ∷ []

abbrev iif : Text → Text
iif port = codes "\t\tiifname " ++ quoted port

unfoldable pub rule_text : Rule → Text
rule_text (drop_all port) = iif port ++ codes " counter drop\n"
rule_text (drop_tagged port) = iif port ++ codes " ether type { 8021q, 8021ad } counter drop\n"
rule_text (drop_other_source port mac) =
    iif port ++ codes " ether saddr != " ++ mac ++ codes " counter drop\n"
rule_text (drop_other_arp port mac) =
    iif port ++ codes " ether type arp arp saddr ether != " ++ mac ++ codes " counter drop\n"

-- The rules of one port.
abbrev pub nic_rules : Nic → List Rule
nic_rules n =
    if same n.mac []
    then drop_all (tap n) ∷ []
    else drop_tagged (tap n) ∷ drop_other_source (tap n) n.mac ∷ drop_other_arp (tap n) n.mac ∷ []

-- The loop of Render.
unfoldable pub rules : Text → List Nic → List Rule
rules bridge [] = []
rules bridge (n ∷ nics) =
    let rest = rules bridge nics in if not (same n.bridge bridge) then rest else nic_rules n ++ rest

unfoldable pub rules_text : List Rule → Text
unfolding rule_text
rules_text [] = []
rules_text (r ∷ rs) = rule_text r ++ rules_text rs

-- Render
unfoldable pub render : Text → List Nic → Text
unfolding rules rules_text
render bridge nics =
    codes
      "table bridge vtpm_mds_bind\ndelete table bridge vtpm_mds_bind\ntable bridge vtpm_mds_bind {\n"
    ++ (codes "\tchain from_guests {\n"
        ++ (codes "\t\ttype filter hook prerouting priority -200; policy accept;\n"
            ++ (rules_text (rules bridge nics) ++ codes "\t}\n}\n")))

-- Bound
unfoldable pub bound : Text → List Nic → ℕ
bound bridge [] = 0
bound bridge (n ∷ nics) =
    let rest = bound bridge nics in if same n.bridge bridge then suc rest else rest

-- `fp` is none while haveFP is not set; `seen` is none for a table that could not be listed.
pub record Binder : Type 0 where
  pub bridge : Text
  pub fp : Option Text
  pub want : Text
  pub ports : ℕ
  pub seen : Option Text
  pub failing : Bool
  pub fail_msg : Text
  pub read_msg : Text

-- What a read of the guest configurations gives.
pub data NicsRead : Type 0 where
  nics_read : List Nic → NicsRead
  read_failed : Text → NicsRead

abbrev pub is_same : Option Text → Option Text → Bool
is_same none none = true
is_same none (some t) = false
is_same (some s) none = false
is_same (some s) (some t) = same s t

-- The table to want after a read, and whether it changed.
unfoldable pub take_read : Binder → NicsRead → Binder × Bool
take_read b (read_failed message) = (record b { read_msg = message }, false)
take_read b (nics_read nics) =
    if not (same (render b.bridge nics) b.want)
    then (record b { want = render b.bridge nics; ports = bound b.bridge nics }, true)
    else (b, false)

unfoldable pub read_configs : Binder → Text → NicsRead → Binder × Bool
read_configs b fp read =
    if not (is_same b.fp (some fp))
    then take_read (record b { fp = some fp; read_msg = [] }) read
    else (b, false)

-- What comes of an apply: its error, or whether the table can be listed after it.
pub data Outcome : Type 0 where
  apply_failed : Text → Outcome
  unlisted applied : Outcome

-- The listing that nft gives of a table which a script has made.
module _ (listing : Text → Text) where
  -- Apply and what follows it
  unfoldable pub apply_table : Binder → Option Text → Outcome → Binder × Option Text × Bool
  apply_table b table (apply_failed e) = (record b { failing = true; fail_msg = e }, table, false)
  apply_table b table unlisted =
      (record b { failing = false; fail_msg = []; seen = none }, some (listing b.want), true)
  apply_table b table applied = (
    record b { failing = false; fail_msg = []; seen = some (listing b.want) },
    some (listing b.want),
    true,
  )

  -- What Tick does once the configurations are read. `table` is what List finds, if anything.
  unfoldable pub keep_table : Binder × Bool → Option Text → Outcome → Binder × Option Text × Bool
  keep_table (b, changed) table outcome =
      if same b.want []
      then (b, table, false)
      else if not changed && not b.failing && is_same table b.seen
      then (b, table, false)
      else apply_table b table outcome

  -- Tick, with the table before and after it, and whether it applied
  unfoldable pub tick :
      Binder → Text → NicsRead → Option Text → Outcome → Binder × Option Text × Bool
  tick b fp read table outcome = keep_table (read_configs b fp read) table outcome
