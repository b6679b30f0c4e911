-- ===== src/Bridgebind/Ports.antt =====
-- What the rules let through.
use vtpm_mds.Prelude.{
  ◌≡◌, ◌≢◌, ◌↔◌, ◌∙◌, refl, sym, Bool, true, false, not, ◌&&◌, ◌||◌, Option, none, some, List, [],
  ◌∷◌, ◌++◌, arith, Text, same, same_iff, any, All, Bool-cases, &&_elim, inl, inr,
}
use vtpm_mds.Proxmox.Nics.{Nic, tap}
use vtpm_mds.Bridgebind.{
  Rule, drop_all, drop_tagged, drop_other_source, drop_other_arp, nic_rules, rules,
}

-- What the rules look at: the port, a VLAN tag, the source address, and the sender of an ARP packet.
pub record Frame : Type 0 where
  pub port : Text
  pub tagged : Bool
  pub source : Text
  pub arp_sender : Option Text

abbrev other_sender : Option Text → Text → Bool
other_sender none mac = false
other_sender (some s) mac = not (same s mac)

-- Whether a rule of nft drops a frame.
unfoldable pub drops : Frame → Rule → Bool
drops f (drop_all port) = same port f.port
drops f (drop_tagged port) = same port f.port && f.tagged
drops f (drop_other_source port mac) = same port f.port && not (same f.source mac)
drops f (drop_other_arp port mac) = same port f.port && other_sender f.arp_sender mac

abbrev pub accepts : List Rule → Frame → Bool
accepts rs f = not (any (drops f) rs)

-- A frame that a device with this MAC may send.
abbrev pub IsOwn : Frame → Nic → Type 0
IsOwn f n =
    (n.mac ≢ [])
    × (f.tagged ≡ false)
    × (f.source ≡ n.mac)
    × ((s : Text) → f.arp_sender ≡ some s → s ≡ n.mac)

any-append {ℓ} :
    {A : Type ℓ} (p : A → Bool) (xs ys : List A) → any p (xs ++ ys) ≡ (any p xs || any p ys)
any-append p [] ys = refl
any-append p (x ∷ xs) ys = ground (arith, any-append p xs ys)

abbrev foreign : Frame → Nic → Bool
foreign f n =
    same n.mac [] || f.tagged || not (same f.source n.mac) || other_sender f.arp_sender n.mac

nic_rules-drop :
    (f : Frame) (n : Nic) → any (drops f) (nic_rules n) ≡ (same (tap n) f.port && foreign f n)
unfolding drops
nic_rules-drop f n = ground arith

sender_iff :
    (o : Option Text) (mac : Text)
    → other_sender o mac ≡ false ↔ ((s : Text) → o ≡ some s → s ≡ mac)
sender_iff none mac = ((λ _ s e. cc), (λ _. refl))
sender_iff (some t) mac = (
  (λ h s e. ground (arith, same_iff t mac)),
  (λ h. let e = h t refl in ground (arith, same_iff t mac)),
)

foreign_iff : (f : Frame) (n : Nic) → foreign f n ≡ false ↔ IsOwn f n
foreign_iff f n = (
  (λ h. (
    (λ e. ground (arith, same_iff n.mac [])),
    ground arith,
    ground (arith, same_iff f.source n.mac),
    (sender_iff f.arp_sender n.mac).0 (ground arith),
  )),
  (λ own.
      let (named, untagged, from, sender) = own in
      let s = (sender_iff f.arp_sender n.mac).1 sender in
      ground (arith, same_iff n.mac [], same_iff f.source n.mac, s)),
)

module _ (bridge : Text) (n : Nic) (nics : List Nic) (f : Frame) where
  accepts_step : accepts (rules bridge (n ∷ nics)) f ≡ (
      not (same n.bridge bridge && (same (tap n) f.port && foreign f n))
      && accepts (rules bridge nics) f)
  unfolding rules
  accepts_step = elim (Bool-cases (same n.bridge bridge)) [
    | inr e ↦ rw e refl
    | inl e ↦
        rw e (
          ground
            (arith, any-append (drops f) (nic_rules n) (rules bridge nics), nic_rules-drop f n))
  ]

  -- The part of one device.
  part_iff :
      not (same n.bridge bridge && (same (tap n) f.port && foreign f n)) ≡ true
      ↔ (n.bridge ≡ bridge → tap n ≡ f.port → IsOwn f n)
  part_iff = (
    (λ h on at.
        (foreign_iff f n).0
          (ground (arith, (same_iff n.bridge bridge).1 on, (same_iff (tap n) f.port).1 at))),
    (λ own. elim (Bool-cases (same n.bridge bridge && same (tap n) f.port)) [
      | inr e ↦ ground arith
      | inl e ↦
          let (a, b) = &&_elim (same n.bridge bridge) (same (tap n) f.port) e in
          ground (
            arith,
            (foreign_iff f n).1
                (own ((same_iff n.bridge bridge).0 a) ((same_iff (tap n) f.port).0 b)),
          )
    ]),
  )

-- The rules for the devices on a bridge let a frame through exactly if every device of the bridge
-- that has the frame's port has a MAC address, and the frame is untagged and comes from that
-- address, as does the ARP packet in it, if there is one.
pub accepts_iff :
    (bridge : Text) (nics : List Nic) (f : Frame)
    → accepts (rules bridge nics) f ≡ true
      ↔ All (λ n. n.bridge ≡ bridge → tap n ≡ f.port → IsOwn f n) nics
unfolding rules
accepts_iff bridge [] f = ((λ _. tt), (λ _. refl))
accepts_iff bridge (n ∷ nics) f =
    let (there, back) = accepts_iff bridge nics f in
    let (own, let_through) = part_iff bridge n nics f in
    (
      (λ h. let (a, b) = &&_elim _ _ (sym (accepts_step bridge n nics f) ∙ h) in (own a, there b)),
      (λ h. accepts_step bridge n nics f ∙ rw (let_through h.0) (back h.1)),
    )
