-- ===== src/Reconcile/Config/Owners.antt =====
-- What the loop over the files of a cluster does to the owners of the fingerprints.
use vtpm_mds.Prelude.{
  ◌≡◌, ◌∙◌, refl, sym, ap, subst, inl, inr, if◌then◌else◌, Bool, true, false, Option, none, some,
  List, [], ◌∷◌, Text, same, same_iff, same_refl, All, All-append, Bool-cases,
}
use vtpm_mds.Dict
use vtpm_mds.Dict.{Dict}
use vtpm_mds.Reconcile.Bans.{has_name}
use vtpm_mds.Reconcile.Config.{
  LoadError, Checked, accepted, rejected, ◌>>=◌, Seen, other_owner, own_fingerprint,
  file_fingerprint, file_step, file_loop, or_error,
}

-- No owner changes.
abbrev pub Grows : Dict Text → Dict Text → Type 0
Grows o o' = (k n : Text) → Dict.get k o ≡ some n → Dict.get k o' ≡ some n

abbrev pub Owned : Text → Dict Text → List Text → Type 0
Owned name o fps = All (λ fp. Dict.get fp o ≡ some name) fps

Owned-Grows :
    (name : Text) (o o' : Dict Text) (fps : List Text)
    → Grows o o'
    → Owned name o fps
    → Owned name o' fps
Owned-Grows name o o' [] g h = tt
Owned-Grows name o o' (fp ∷ fps) g h = (g fp name h.0, Owned-Grows name o o' fps g h.1)

pub accepted-inj {ℓ} : {A : Type ℓ} {a b : A} → accepted a ≡ accepted b → a ≡ b
accepted-inj h = cc

pub bind_inv {ℓ κ} :
    {A : Type ℓ} {B : Type κ} (c : Checked A) (f : A → Checked B) (b : B)
    → (c >>= f) ≡ accepted b
    → (a : A) × (c ≡ accepted a) × (f a ≡ accepted b)
bind_inv (accepted a) f b h = (a, refl, h)
bind_inv (rejected e) f b h = cc

pub passed {ℓ} :
    {A : Type ℓ} (b : Bool) (e : LoadError) (next : Checked A) {a : A}
    → (if b then rejected e else next) ≡ accepted a
    → next ≡ accepted a
passed true e next h = cc
passed false e next h = h

pub or_error_inv :
    (o : Option LoadError) (next : Checked Seen) (s : Seen)
    → or_error o next ≡ accepted s
    → (o ≡ none) × (next ≡ accepted s)
or_error_inv none next s h = (refl, h)
or_error_inv (some e) next s h = cc

pub some-inj : {s t : Text} → some s ≡ some t → s ≡ t
some-inj h = cc

own_name : (name n : Text) (o : Option Text) → other_owner name o ≡ none → o ≡ some n → n ≡ name
own_name name n none h e = cc
own_name name n (some other) h e = elim (Bool-cases (same other name)) [
  | inl t ↦ sym (some-inj e) ∙ (same_iff other name).0 t
  | inr t ↦ let no : some other ≡ none = (rw t at h) in cc
]

-- What a step keeps, and that the cluster owns its fingerprints.
abbrev pub Keeps : Text → Seen → Seen → Type 0
Keeps name s s' = Grows s.owners s'.owners × Owned name s'.owners s'.fps

own_fingerprint-Keeps :
    (name file fp : Text) (s s' : Seen) (o : Option Text)
    → other_owner name (Dict.get fp s.owners) ≡ o
    → Owned name s.owners s.fps
    → own_fingerprint name file fp s o ≡ accepted s'
    → Keeps name s s'
unfolding own_fingerprint
own_fingerprint-Keeps name file fp s s' (some other) e h q = cc
own_fingerprint-Keeps name file fp s s' none e h q =
    subst (Keeps name s) (accepted-inj q)
      (grows, (All-append _ s.fps (fp ∷ []) (Owned-Grows name s.owners _ s.fps grows h) (here, tt)))
  where
    grows : Grows s.owners (Dict.put fp name s.owners)
    grows k n g = elim (Bool-cases (same fp k)) [
      | inl t ↦
          let old : Dict.get fp s.owners ≡ some n =
            ap (λ i. Dict.get i s.owners) ((same_iff fp k).0 t) ∙ g in
          Dict.get-put fp k name s.owners ∙ rw t (ap some (sym (own_name name n _ e old)))
      | inr t ↦ Dict.get-put fp k name s.owners ∙ rw t g
    ]

    here : Dict.get fp (Dict.put fp name s.owners) ≡ some name
    here = Dict.get-put fp fp name s.owners ∙ rw (same_refl fp) refl

file_fingerprint-Keeps :
    (name file : Text) (s s' : Seen) (o : Option Text)
    → Owned name s.owners s.fps
    → file_fingerprint name file s o ≡ accepted s'
    → Keeps name s s'
unfolding file_fingerprint
file_fingerprint-Keeps name file s s' none h q = cc
file_fingerprint-Keeps name file s s' (some fp) h q = elim (Bool-cases (has_name fp s.fps)) [
  | inl t ↦ subst (Keeps name s) (accepted-inj (rw t at q)) ((λ k n g. g), h)
  | inr t ↦ own_fingerprint-Keeps name file fp s s' _ refl h (rw t at q)
]

module _ (intermediate_fingerprint : Text → Option Text) where
  file_step-Keeps :
      (name file : Text) (s s' : Seen)
      → Owned name s.owners s.fps
      → file_step intermediate_fingerprint name file s ≡ accepted s'
      → Keeps name s s'
  unfolding file_step
  file_step-Keeps name file s s' h q = elim (Bool-cases (has_name file s.seen)) [
    | inl t ↦ subst (Keeps name s) (accepted-inj (rw t at q)) ((λ k n g. g), h)
    | inr t ↦ file_fingerprint-Keeps name file s s' _ h (rw t at q)
  ]

  pub file_loop-Keeps :
      (name : Text) (files : List Text) (s s' : Seen)
      → Owned name s.owners s.fps
      → file_loop intermediate_fingerprint name files s ≡ accepted s'
      → Keeps name s s'
  unfolding file_loop
  file_loop-Keeps name [] s s' h q = subst (Keeps name s) (accepted-inj q) ((λ k n g. g), h)
  file_loop-Keeps name (file ∷ files) s s' h q =
      let (t, first, rest) = bind_inv (file_step intermediate_fingerprint name file s) _ s' q in
      let (grows, owned) = file_step-Keeps name file s t h first in
      let (grows', owned') = file_loop-Keeps name files t s' owned rest in
      ((λ k n g. grows' k n (grows k n g)), owned')
