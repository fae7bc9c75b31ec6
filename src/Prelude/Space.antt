-- ===== src/Prelude/Space.antt =====
-- strings.TrimSpace on UTF-8 bytes, and strings.ToLower as far as its result is ASCII.
use Prim.Native.Nat.{ℕ, zero, suc, ◌+◌}
use mathlib.Core.Path.{◌≡◌, refl, ap}
use mathlib.Core.Bool.{Bool, true, false, ◌&&◌, ◌||◌}
use mathlib.Core.List.{[], ◌∷◌, reverse}
use hukou.Prelude.Tests.{leb, ◌==◌, if◌then◌else◌}
use hukou.Prelude.Lists.{length, drop}
use native.Mathlib.Omega.{arith}
use hukou.Prelude.Bytes.{Text, codes, text_eq, is_hex, all_hex}

-- unicode.IsSpace on a rune of one, two or three bytes
is_space1 : ℕ → Bool
is_space1 a = a == 32 || (leb 9 a && leb a 13)

is_space2 : ℕ → ℕ → Bool
is_space2 a b = a == 0xc2 && (b == 0x85 || b == 0xa0)

is_space3 : ℕ → ℕ → ℕ → Bool
is_space3 a b c =
    a == 0xe1 && b == 0x9a && c == 0x80
    || a == 0xe2 && b == 0x80 && (leb 0x80 c && leb c 0x8a || c == 0xa8 || c == 0xa9 || c == 0xaf)
    || a == 0xe2 && b == 0x81 && c == 0x9f
    || a == 0xe3 && b == 0x80 && c == 0x80

-- How many bytes the white-space rune at the front has, 0 if there is none.
front_width : Text → ℕ
unfolding is_space1 is_space2 is_space3
front_width [] = 0
front_width (a ∷ []) = if is_space1 a then 1 else 0
front_width (a ∷ b ∷ []) = if is_space1 a then 1 else if is_space2 a b then 2 else 0
front_width (a ∷ b ∷ c ∷ s) =
    if is_space1 a then 1 else if is_space2 a b then 2 else if is_space3 a b c then 3 else 0

-- The same at the end of a text that is given reversed.
back_width : Text → ℕ
unfolding is_space1 is_space2 is_space3
back_width [] = 0
back_width (a ∷ []) = if is_space1 a then 1 else 0
back_width (b ∷ a ∷ []) = if is_space1 b then 1 else if is_space2 a b then 2 else 0
back_width (c ∷ b ∷ a ∷ s) =
    if is_space1 c then 1 else if is_space2 b c then 2 else if is_space3 a b c then 3 else 0

-- Each round drops at least one byte, so the length is fuel enough.
trim : (Text → ℕ) → ℕ → Text → Text
trim width zero s = s
trim width (suc fuel) s = elim (width s) [ zero ↦ s | suc n ↦ trim width fuel (drop (suc n) s) ]

unfoldable pub trim_space : Text → Text
unfolding trim front_width back_width
trim_space s =
    let left = trim front_width (length s) s in
    reverse (trim back_width (length left) (reverse left))

-- `strings.TrimSpace(s) != s`
unfoldable pub is_trimmed : Text → Bool
unfolding trim_space text_eq
is_trimmed s = text_eq (trim_space s) s

-- ASCII letters, and the two other letters whose lower case is ASCII (U+0130 and U+212A). Every
-- other rune has a lower case outside ASCII, and is left as it is.
unfoldable pub to_lower : Text → Text
to_lower [] = []
to_lower (a ∷ []) = (if leb b'A' a && leb a b'Z' then a + 32 else a) ∷ []
to_lower (a ∷ b ∷ []) = elim (a == 0xc4 && b == 0xb0) [
  | true ↦ b'i' ∷ []
  | false ↦ (if leb b'A' a && leb a b'Z' then a + 32 else a) ∷ to_lower (b ∷ [])
]
to_lower (a ∷ b ∷ c ∷ s) = elim (a == 0xc4 && b == 0xb0) [
  | true ↦ b'i' ∷ to_lower (c ∷ s)
  | false ↦ elim (a == 0xe2 && b == 0x84 && c == 0xaa) [
    | true ↦ b'k' ∷ to_lower s
    | false ↦ (if leb b'A' a && leb a b'Z' then a + 32 else a) ∷ to_lower (b ∷ c ∷ s)
  ]
]

-- ASCII letters in lower case, byte by byte.
unfoldable pub lower_ascii : Text → Text
lower_ascii [] = []
lower_ascii (a ∷ s) = (if leb b'A' a && leb a b'Z' then a + 32 else a) ∷ lower_ascii s

-- `strings.EqualFold(s, w)` for an ASCII word `w` without `k` and `s`, the only letters that another
-- rune folds to.
unfoldable pub equal_fold : Text → Text → Bool
unfolding lower_ascii text_eq
equal_fold s w = text_eq (lower_ascii s) (lower_ascii w)

-- A hexadecimal digit begins no longer rune.
hex_plain : (a : ℕ) → is_hex a ≡ true → ((a == 0xc4) ≡ false) × ((a == 0xe2) ≡ false)
hex_plain a h = (ground arith, ground arith)

hex_head : (a : ℕ) (s : Text) → all_hex (a ∷ s) ≡ true → (is_hex a ≡ true) × (all_hex s ≡ true)
unfolding all_hex
hex_head a s h = ground arith

-- On hexadecimal digits both are the same, and give hexadecimal digits.
pub to_lower-hex : (s : Text) → all_hex s ≡ true → to_lower s ≡ lower_ascii s
unfolding to_lower lower_ascii
to_lower-hex [] h = refl
to_lower-hex (a ∷ []) h = refl
to_lower-hex (a ∷ b ∷ []) h =
    let (ha, _) = hex_head a (b ∷ []) h in rw (to_lower, (hex_plain a ha).0) refl
to_lower-hex (a ∷ b ∷ c ∷ s) h =
    let (ha, hs) = hex_head a (b ∷ c ∷ s) h in
    rw (to_lower, (hex_plain a ha).0, (hex_plain a ha).1)
      (ap (◌∷◌ (if leb b'A' a && leb a b'Z' then a + 32 else a)) (to_lower-hex (b ∷ c ∷ s) hs))

pub lower_ascii-hex :
    (s : Text)
    → all_hex s ≡ true
    → (all_hex (lower_ascii s) ≡ true) × (length (lower_ascii s) ≡ length s)
unfolding lower_ascii all_hex
lower_ascii-hex [] h = (refl, refl)
lower_ascii-hex (a ∷ s) h = ground (arith, lower_ascii-hex s)

pub lower_ascii_idem : (s : Text) → lower_ascii (lower_ascii s) ≡ lower_ascii s
unfolding lower_ascii
lower_ascii_idem [] = refl
lower_ascii_idem (a ∷ s) = ground (arith, lower_ascii_idem s)

trim_space_runs : trim_space (codes " \tv1.0 \n") ≡ codes "v1.0"
unfolding trim_space
trim_space_runs = refl

to_lower_runs : to_lower (codes "LocaL") ≡ codes "local"
unfolding to_lower
to_lower_runs = refl
