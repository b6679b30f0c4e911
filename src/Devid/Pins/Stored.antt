-- ===== src/Devid/Pins/Stored.antt =====
-- Reading the local pins of internal/devid/pin.go back after a create or a removal.
use vtpm_mds.Prelude.{
  ℕ, ◌≡◌, refl, ◌∙◌, true, false, ◌&&◌, [], ◌∷◌, ◌++◌, reverse, arith, if◌then◌else◌, Text, codes,
  same, trim_space, drop_spaces, is_space, to_lower, lower_rune, &&_elim,
}
use mathlib.Core.Logic.{◌≢◌}
use mathlib.Core.List.{reverse-append, reverse-reverse, reverse-cons}
use vtpm_mds.Dict.{get-put, get-singleton, get-remove}
use vtpm_mds.Devid.Files.{
  file, Dir, absent, blocked, unlistable, listable, missing, failed, contents, read_file,
}
use vtpm_mds.Devid.Pins.{ok, is_empty, is_hex, all_hex, stored_text, pin_line, with_pin}
use vtpm_mds.Devid.Pins.Scan.{without_pin}

hex_rune : (c : ℕ) → is_hex c ≡ true → (is_space c ≡ false) × (lower_rune c ≡ c)
unfolding is_hex is_space lower_rune
hex_rune c h = ground arith

to_lower-all_hex : (s : Text) → all_hex s ≡ true → to_lower s ≡ s
unfolding to_lower all_hex
to_lower-all_hex [] h = refl
to_lower-all_hex (c ∷ s) h =
    let both = &&_elim (is_hex c) (all_hex s) h in
    rw ((hex_rune c both.0).1, to_lower-all_hex s both.1) refl

drop_spaces-all_hex :
    (s r : Text) → all_hex s ≡ true → is_empty s ≡ false → drop_spaces (s ++ r) ≡ s ++ r
unfolding drop_spaces all_hex
drop_spaces-all_hex [] r h n = ground (arith, n)
drop_spaces-all_hex (c ∷ s) r h n = rw (hex_rune c (&&_elim (is_hex c) (all_hex s) h).0).0 refl

all_hex-append : (s t : Text) → all_hex (s ++ t) ≡ (all_hex s && all_hex t)
unfolding all_hex
all_hex-append [] t = refl
all_hex-append (c ∷ s) t = ground (arith, all_hex-append s t)

all_hex-reverse : (s : Text) → all_hex (reverse s) ≡ all_hex s
unfolding all_hex
all_hex-reverse [] = refl
all_hex-reverse (c ∷ s) =
    rw (reverse-cons c s, all_hex-append (reverse s) (c ∷ []), all_hex-reverse s) (ground arith)

is_empty-append : (s t : Text) → is_empty (s ++ t) ≡ (is_empty s && is_empty t)
is_empty-append [] t = refl
is_empty-append (c ∷ s) t = refl

is_empty-reverse : (s : Text) → is_empty (reverse s) ≡ is_empty s
is_empty-reverse [] = refl
is_empty-reverse (c ∷ s) =
    rw (reverse-cons c s, is_empty-append (reverse s) (c ∷ [])) (ground arith)

drop_newline : (s : Text) → all_hex s ≡ true → is_empty s ≡ false → drop_spaces (b'\n' ∷ s) ≡ s
unfolding drop_spaces all_hex is_space
drop_newline [] h n = ground (arith, n)
drop_newline (c ∷ s) h n = rw (hex_rune c (&&_elim (is_hex c) (all_hex s) h).0).0 refl

-- A line that holds a fingerprint reads back as the fingerprint.
pub stored_text-pin_line :
    (fp : Text)
    → all_hex fp ≡ true
    → is_empty fp ≡ false
    → stored_text (contents (pin_line fp)) ≡ ok fp
unfolding trim_space
stored_text-pin_line fp h n =
    rw
      (
        to_lower-all_hex fp h,
        drop_spaces-all_hex fp (codes "\n") h n,
        reverse-append fp (codes "\n"),
        drop_newline (reverse fp) (all_hex-reverse fp ∙ h) (is_empty-reverse fp ∙ n),
        reverse-reverse fp,
        to_lower-all_hex fp h,
      )
      refl

-- The files of a directory after a create and after a removal.
pub read_file-with_pin :
    (dir : Dir) (vmid fp j : Text)
    → read_file dir vmid ≡ missing
    → read_file (with_pin dir vmid fp) j
      ≡ (if same vmid j then contents (pin_line fp) else read_file dir j)
unfolding read_file
read_file-with_pin absent vmid fp j h = ground (arith, get-singleton vmid j (file (pin_line fp)))
read_file-with_pin blocked vmid fp j h = ground (arith, h)
read_file-with_pin (unlistable d) vmid fp j h =
    rw (get-put vmid j (file (pin_line fp)) d) (ground arith)
read_file-with_pin (listable d) vmid fp j h =
    rw (get-put vmid j (file (pin_line fp)) d) (ground arith)

pub read_file-without_pin :
    (dir : Dir) (vmid j : Text)
    → read_file dir vmid ≢ failed
    → read_file (without_pin dir vmid) j ≡ (if same vmid j then missing else read_file dir j)
unfolding read_file
read_file-without_pin absent vmid j h = ground arith
read_file-without_pin blocked vmid j h = absurd (h refl)
read_file-without_pin (unlistable d) vmid j h = rw (get-remove vmid j d) (ground arith)
read_file-without_pin (listable d) vmid j h = rw (get-remove vmid j d) (ground arith)
