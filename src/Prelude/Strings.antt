-- ===== src/Prelude/Strings.antt =====
-- Go strings as lists of code points (for a text in UTF-8 their order is the byte order), and the
-- functions of the packages strings and unicode that the program calls.
use Prim.Native.Char.{code}
use Prim.Native.String.{String}
use Prim.Native.Nat.{ℕ, ◌+◌, ◌-◌}
use mathlib.Core.Path.{◌≡◌, refl}
use mathlib.Core.Logic.{◌≢◌, ◌↔◌}
use mathlib.Core.Bool.{Bool, true, false, ◌&&◌, ◌||◌}
use mathlib.Core.List.{List, [], ◌∷◌, ◌++◌, map, reverse}
use native.Mathlib.Omega.{arith}
use vtpm_mds.Prelude.Tests.{ltb, leb, ◌==◌, if◌then◌else◌}

abbrev pub Text : Type 0
Text = List ℕ

-- The code points of a text literal.
abbrev pub codes : String → Text
codes String.[] = []
codes (String.◌∷◌ c s) = code c ∷ codes s

-- s == t
unfoldable pub same : Text → Text → Bool
same [] [] = true
same [] (y ∷ ys) = false
same (x ∷ xs) [] = false
same (x ∷ xs) (y ∷ ys) = x == y && same xs ys

pub same_refl : (s : Text) → same s s ≡ true
unfolding same
same_refl [] = refl
same_refl (x ∷ xs) = ground (arith, same_refl xs)

pub same_iff : (s t : Text) → (same s t ≡ true) ↔ (s ≡ t)
unfolding same
same_iff [] [] = ground arith
same_iff [] (y ∷ ys) = ground arith
same_iff (x ∷ xs) [] = ground arith
same_iff (x ∷ xs) (y ∷ ys) = ground (arith, same_iff xs ys)

pub same_ne : (s t : Text) → s ≢ t → same s t ≡ false
same_ne s t h = ground (arith, same_iff s t)

pub same_sym : (s t : Text) → same s t ≡ same t s
same_sym s t = ground (arith, same_iff s t, same_iff t s)

pub same_trans : (s t u : Text) → same s t ≡ true → same t u ≡ same s u
same_trans s t u h = ground (arith, same_iff s t, same_iff t u, same_iff s u)

-- s < t
unfoldable pub text_lt : Text → Text → Bool
text_lt [] [] = false
text_lt [] (y ∷ ys) = true
text_lt (x ∷ xs) [] = false
text_lt (x ∷ xs) (y ∷ ys) = let rest = text_lt xs ys in if x == y then rest else ltb x y

-- strings.HasPrefix(s, p), the prefix first
unfoldable pub has_prefix : Text → Text → Bool
has_prefix [] s = true
has_prefix (x ∷ p) [] = false
has_prefix (x ∷ p) (y ∷ s) = x == y && has_prefix p s

-- A text with a prefix is the prefix and a rest.
pub has_prefix_iff : (p s : Text) → (has_prefix p (p ++ s)) ≡ true
unfolding has_prefix
has_prefix_iff [] s = refl
has_prefix_iff (x ∷ p) s = ground (arith, has_prefix_iff p s)

-- unicode.IsSpace
unfoldable pub is_space : ℕ → Bool
is_space c =
    (leb 9 c && leb c 13)
    || c == 0x20
    || c == 0x85
    || c == 0xa0
    || c == 0x1680
    || (leb 0x2000 c && leb c 0x200a)
    || c == 0x2028
    || c == 0x2029
    || c == 0x202f
    || c == 0x205f
    || c == 0x3000

-- unicode.ToLower where its result is ASCII: the capitals, the Kelvin sign and the dotted capital I.
-- It keeps all other code points.
unfoldable pub lower_rune : ℕ → ℕ
lower_rune c =
    if leb b'A' c && leb c b'Z'
    then c + 32
    else if c == 0x212a
    then b'k'
    else if c == 0x130
    then b'i'
    else c

-- strings.ToLower
unfoldable pub to_lower : Text → Text
unfolding lower_rune
to_lower = map lower_rune

unfoldable pub drop_spaces : Text → Text
unfolding is_space
drop_spaces [] = []
drop_spaces (c ∷ s) = let rest = drop_spaces s in if is_space c then rest else c ∷ s

-- strings.TrimSpace
unfoldable pub trim_space : Text → Text
unfolding drop_spaces
trim_space s = reverse (drop_spaces (reverse (drop_spaces s)))

-- strings.ContainsRune(s, c), the rune first
unfoldable pub contains_rune : ℕ → Text → Bool
contains_rune c [] = false
contains_rune c (x ∷ s) = x == c || contains_rune c s

abbrev push_head : ℕ → List Text → List Text
push_head c [] = (c ∷ []) ∷ []
push_head c (w ∷ ws) = (c ∷ w) ∷ ws

-- strings.Split(s, sep) for a separator of one code point
unfoldable pub split_on : ℕ → Text → List Text
split_on sep [] = [] ∷ []
split_on sep (c ∷ s) = let rest = split_on sep s in if c == sep then [] ∷ rest else push_head c rest

abbrev pub prepend : ℕ → Text × Text × Bool → Text × Text × Bool
prepend c (before, after, found) = (c ∷ before, after, found)

-- strings.Cut(s, sep) for a separator of one code point
unfoldable pub cut : ℕ → Text → Text × Text × Bool
cut sep [] = ([], [], false)
cut sep (c ∷ s) = let rest = cut sep s in if c == sep then ([], s, true) else prepend c rest

-- The field in progress, and the fields behind it.
abbrev close_field : Text → List Text → List Text
close_field [] ws = ws
close_field (c ∷ w) ws = (c ∷ w) ∷ ws

fields_loop : (ℕ → Bool) → Text → Text × List Text
fields_loop f [] = ([], [])
fields_loop f (c ∷ s) =
    let (w, ws) = fields_loop f s in if f c then ([], close_field w ws) else (c ∷ w, ws)

-- strings.FieldsFunc
unfoldable pub fields_func : (ℕ → Bool) → Text → List Text
unfolding fields_loop
fields_func f s = let (w, ws) = fields_loop f s in close_field w ws

-- strings.EqualFold. The two code points outside ASCII that Go folds onto ASCII letters are the
-- Kelvin sign and the long s.
fold_rune : ℕ → ℕ
unfolding lower_rune
fold_rune c = if c == 0x17f then b's' else lower_rune c

unfoldable pub equal_fold : Text → Text → Bool
unfolding fold_rune same
equal_fold s t = same (map fold_rune s) (map fold_rune t)

pub equal_fold_refl : (s : Text) → equal_fold s s ≡ true
unfolding equal_fold
equal_fold_refl s = same_refl (map fold_rune s)

pub equal_fold_sym : (s t : Text) → equal_fold s t ≡ equal_fold t s
unfolding equal_fold
equal_fold_sym s t = same_sym (map fold_rune s) (map fold_rune t)

pub equal_fold_trans : (s t u : Text) → equal_fold s t ≡ true → equal_fold t u ≡ equal_fold s u
unfolding equal_fold
equal_fold_trans s t u h = same_trans (map fold_rune s) (map fold_rune t) (map fold_rune u) h

-- The bytes of a rune in UTF-8, and of a text.
abbrev pub width : ℕ → ℕ
width c = if ltb c 0x80 then 1 else if ltb c 0x800 then 2 else if ltb c 0x10000 then 3 else 4

unfoldable pub byte_length : Text → ℕ
byte_length [] = 0
byte_length (c ∷ s) = width c + byte_length s

-- s[n:] for an index in bytes that is the start of a rune
unfoldable pub drop_bytes : ℕ → Text → Text
drop_bytes n [] = []
drop_bytes n (c ∷ s) = let rest = drop_bytes (n - width c) s in if n == 0 then c ∷ s else rest

-- s[:n] for an index in bytes; the part of a rune that it splits is U+FFFD, which no letter folds to
unfoldable pub take_bytes : ℕ → Text → Text
take_bytes n [] = []
take_bytes n (c ∷ s) =
    let rest = take_bytes (n - width c) s in
    if n == 0 then [] else if ltb n (width c) then 0xfffd ∷ [] else c ∷ rest
