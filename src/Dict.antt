-- ===== src/Dict.antt =====
-- Go maps with string keys, as association lists. The order of the list is the order in which the
-- model walks the map.
use vtpm_mds.Prelude.{
  ℕ, ◌+◌, ◌≡◌, refl, Option, none, some, List, [], ◌∷◌, map, arith, if◌then◌else◌, Text, same,
  same_iff, same_sym, In, Bool-cases, sym, inl, inr, Bool,
}

abbrev pub Dict {ℓ} : Type ℓ → Type ℓ
Dict V = List (Text × V)

module _ {ℓ} {V : Type ℓ} where
  -- v, ok := d[k]
  unfoldable pub get : Text → Dict V → Option V
  get k [] = none
  get k ((j, v) ∷ d) = if same j k then some v else get k d

  -- d[k] = v
  unfoldable pub put : Text → V → Dict V → Dict V
  put k v [] = (k, v) ∷ []
  put k v ((j, w) ∷ d) = if same j k then (j, v) ∷ d else (j, w) ∷ put k v d

  -- delete(d, k)
  unfoldable pub remove : Text → Dict V → Dict V
  remove k [] = []
  remove k ((j, v) ∷ d) = let rest = remove k d in if same j k then rest else (j, v) ∷ rest

  abbrev pub keys : Dict V → List Text
  keys = map (λ e. e.0)

  pub get-put :
      (k j : Text) (v : V) (d : Dict V) → get j (put k v d) ≡ (if same k j then some v else get j d)
  unfolding get put
  get-put k j v [] = refl
  get-put k j v ((i, w) ∷ d) =
      ground (arith, same_iff k j, same_iff i k, same_iff i j, get-put k j v d)

  pub get-remove :
      (k j : Text) (d : Dict V) → get j (remove k d) ≡ (if same k j then none else get j d)
  unfolding get remove
  get-remove k j [] = ground arith
  get-remove k j ((i, w) ∷ d) =
      ground (arith, same_iff k j, same_iff i k, same_iff i j, get-remove k j d)

  -- Every key stands once.
  abbrev pub IsKeyed : Dict V → Type ℓ
  IsKeyed [] = Unit
  IsKeyed ((k, v) ∷ d) = (get k d ≡ none) × IsKeyed d

  pub put-IsKeyed : (k : Text) (v : V) (d : Dict V) → IsKeyed d → IsKeyed (put k v d)
  unfolding get put
  put-IsKeyed k v [] h = (refl, tt)
  put-IsKeyed k v ((i, w) ∷ d) h =
      ground (arith, put-IsKeyed k v d h.1, get-put k i v d, same_sym i k)

  pub remove-IsKeyed : (k : Text) (d : Dict V) → IsKeyed d → IsKeyed (remove k d)
  unfolding get remove
  remove-IsKeyed k [] h = tt
  remove-IsKeyed k ((i, w) ∷ d) h =
      ground (arith, remove-IsKeyed k d h.1, get-remove k i d, same_sym i k)

module _ {ℓ} {V : Type ℓ} (p : V → Bool) where
  -- The entries whose value passes a test: a walk that deletes the others.
  unfoldable pub keep_values : Dict V → Dict V
  keep_values [] = []
  keep_values ((k, v) ∷ d) = let rest = keep_values d in if p v then (k, v) ∷ rest else rest

  abbrev pub passes : Option V → Option V
  passes none = none
  passes (some v) = if p v then some v else none

  pub get-keep_values :
      (k : Text) (d : Dict V) → IsKeyed d → get k (keep_values d) ≡ passes (get k d)
  unfolding get keep_values
  get-keep_values k [] h = refl
  get-keep_values k ((j, v) ∷ d) h = ground (arith, get-keep_values k d h.1, h.0, same_iff j k)

  pub keep_values-IsKeyed : (d : Dict V) → IsKeyed d → IsKeyed (keep_values d)
  unfolding keep_values
  keep_values-IsKeyed [] h = tt
  keep_values-IsKeyed ((j, v) ∷ d) h =
      ground (arith, keep_values-IsKeyed d h.1, get-keep_values j d h.1, h.0)

-- A key with a value is among the keys.
pub In-keys : {V : Type 0} (k : Text) (v : V) (d : Dict V) → get k d ≡ some v → In k (keys d)
unfolding get
In-keys k v [] h = cc
In-keys k v ((j, w) ∷ d) h = elim (Bool-cases (same j k)) [
  | inl e ↦ inl (sym ((same_iff j k).0 e))
  | inr e ↦ inr (In-keys k v d (rw e at h))
]

-- A key that is listed has a value.
pub get-of_In : {V : Type 0} (k : Text) (d : Dict V) → In k (keys d) → (v : V) × (get k d ≡ some v)
unfolding get
get-of_In k [] m = absurd m
get-of_In k ((j, w) ∷ d) m = elim (Bool-cases (same j k)) [
  | inl e ↦ (w, rw e)
  | inr e ↦ elim m [
    | inl q ↦ ground (arith, same_iff j k)
    | inr q ↦ let (v, h) = get-of_In k d q in (v, rw e h)
  ]
]

pub get-singleton {ℓ} :
    {V : Type ℓ} (k j : Text) (v : V) → get j ((k, v) ∷ []) ≡ (if same k j then some v else none)
unfolding get
get-singleton k j v = refl

pub get-empty {ℓ} : {V : Type ℓ} (k : Text) → get {V = V} k [] ≡ none
unfolding get
get-empty k = refl

pub ruleset dict_laws = (get-empty, get-put, get-remove)

-- The sum of a measure over the values of a map.
module _ {ℓ} {V : Type ℓ} (size : V → ℕ) where
  abbrev pub total : Dict V → ℕ
  total [] = 0
  total ((k, v) ∷ d) = size v + total d

  abbrev pub size_of : Option V → ℕ
  size_of none = 0
  size_of (some v) = size v

  pub total-put :
      (k : Text) (v : V) (d : Dict V) → total (put k v d) + size_of (get k d) ≡ total d + size v
  unfolding get put
  total-put k v [] = omega arith
  total-put k v ((i, w) ∷ d) = ground (arith, total-put k v d)

  total-remove_absent : (k : Text) (d : Dict V) → get k d ≡ none → total (remove k d) ≡ total d
  unfolding get remove
  total-remove_absent k [] h = refl
  total-remove_absent k ((i, w) ∷ d) h = ground (arith, total-remove_absent k d)

  pub total-remove :
      (k : Text) (d : Dict V) → IsKeyed d → total (remove k d) + size_of (get k d) ≡ total d
  unfolding get remove
  total-remove k [] h = refl
  total-remove k ((i, w) ∷ d) h =
      ground (arith, total-remove k d h.1, total-remove_absent k d, same_iff i k)
