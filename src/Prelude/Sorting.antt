-- ===== src/Prelude/Sorting.antt =====
-- sort.Strings, and that it keeps the elements and puts them in order.
use mathlib.Core.Path.{◌≡◌, refl}
use mathlib.Core.Logic.{◌⊎◌, inl, inr}
use mathlib.Core.Bool.{true, false}
use mathlib.Core.List.{List, [], ◌∷◌}
use native.Mathlib.Omega.{arith}
use vtpm_mds.Prelude.Tests.{if◌then◌else◌, Bool-cases}
use vtpm_mds.Prelude.Strings.{Text, text_lt}
use vtpm_mds.Prelude.Lists.{In, All}

pub insert_text : Text → List Text → List Text
insert_text t [] = t ∷ []
insert_text t (u ∷ us) = let rest = insert_text t us in if text_lt t u then t ∷ u ∷ us else u ∷ rest

-- sort.Strings
unfoldable pub sort_texts : List Text → List Text
unfolding insert_text
sort_texts [] = []
sort_texts (t ∷ ts) = insert_text t (sort_texts ts)

pub In-insert_text : (k t : Text) (us : List Text) → (k ≡ t) ⊎ In k us → In k (insert_text t us)
unfolding insert_text
In-insert_text k t [] m = m
In-insert_text k t (u ∷ us) m = elim (Bool-cases (text_lt t u)) [
  | inl e ↦ rw e m
  | inr e ↦ rw e (elim m [
    | inl q ↦ inr (In-insert_text k t us (inl q))
    | inr (inl q) ↦ inl q
    | inr (inr q) ↦ inr (In-insert_text k t us (inr q))
  ])
]

pub In-of_insert_text : (k t : Text) (us : List Text) → In k (insert_text t us) → (k ≡ t) ⊎ In k us
unfolding insert_text
In-of_insert_text k t [] m = m
In-of_insert_text k t (u ∷ us) m = elim (Bool-cases (text_lt t u)) [
  | inl e ↦ rw e at m
  | inr e ↦ elim (rw e at m) [
    | inl q ↦ inr (inl q)
    | inr q ↦ elim (In-of_insert_text k t us q) [ inl p ↦ inl p | inr p ↦ inr (inr p) ]
  ]
]

pub In-sort_texts : (k : Text) (ts : List Text) → In k ts → In k (sort_texts ts)
unfolding sort_texts
In-sort_texts k [] m = m
In-sort_texts k (t ∷ ts) (inl q) = In-insert_text k t (sort_texts ts) (inl q)
In-sort_texts k (t ∷ ts) (inr q) = In-insert_text k t (sort_texts ts) (inr (In-sort_texts k ts q))

pub In-of_sort_texts : (k : Text) (ts : List Text) → In k (sort_texts ts) → In k ts
unfolding sort_texts
In-of_sort_texts k [] m = m
In-of_sort_texts k (t ∷ ts) m = elim (In-of_insert_text k t (sort_texts ts) m) [
  | inl q ↦ inl q
  | inr q ↦ inr (In-of_sort_texts k ts q)
]

-- No text stands before a smaller one.
abbrev pub IsSorted : List Text → Type 0
IsSorted [] = Unit
IsSorted (t ∷ ts) = All (λ u. text_lt u t ≡ false) ts × IsSorted ts

text_lt-asymm : (s t : Text) → text_lt s t ≡ true → text_lt t s ≡ false
unfolding text_lt
text_lt-asymm [] [] h = refl
text_lt-asymm [] (y ∷ t) h = refl
text_lt-asymm (x ∷ s) [] h = cc
text_lt-asymm (x ∷ s) (y ∷ t) h = ground (arith, text_lt-asymm s t)

-- What is not below `t` is not below anything below `t`.
text_lt-bound : (s t u : Text) → text_lt s t ≡ false → text_lt u t ≡ true → text_lt s u ≡ false
unfolding text_lt
text_lt-bound s [] [] h k = cc
text_lt-bound s [] (z ∷ u) h k = cc
text_lt-bound [] (y ∷ t) u h k = cc
text_lt-bound (x ∷ s) (y ∷ t) [] h k = refl
text_lt-bound (x ∷ s) (y ∷ t) (z ∷ u) h k = ground (arith, text_lt-bound s t u)

module _ (t u : Text) (below : text_lt t u ≡ true) where
  All-below :
      (us : List Text) → All (λ v. text_lt v u ≡ false) us → All (λ v. text_lt v t ≡ false) us
  All-below [] h = tt
  All-below (v ∷ us) h = (text_lt-bound v u t h.0 below, All-below us h.1)

All-insert_text :
    (t u : Text) (us : List Text)
    → text_lt t u ≡ false
    → All (λ v. text_lt v u ≡ false) us
    → All (λ v. text_lt v u ≡ false) (insert_text t us)
unfolding insert_text
All-insert_text t u [] h a = (h, tt)
All-insert_text t u (v ∷ us) h a = elim (Bool-cases (text_lt t v)) [
  | inl e ↦ rw e (h, a)
  | inr e ↦ rw e (a.0, All-insert_text t u us h a.1)
]

insert_text-IsSorted : (t : Text) (us : List Text) → IsSorted us → IsSorted (insert_text t us)
unfolding insert_text
insert_text-IsSorted t [] h = (tt, tt)
insert_text-IsSorted t (u ∷ us) h = elim (Bool-cases (text_lt t u)) [
  | inl e ↦ rw e ((text_lt-asymm t u e, All-below t u e us h.0), h)
  | inr e ↦ rw e (All-insert_text t u us e h.0, insert_text-IsSorted t us h.1)
]

pub sort_texts-IsSorted : (ts : List Text) → IsSorted (sort_texts ts)
unfolding sort_texts
sort_texts-IsSorted [] = tt
sort_texts-IsSorted (t ∷ ts) = insert_text-IsSorted t (sort_texts ts) (sort_texts-IsSorted ts)
