-- ===== src/Coupon/Code.antt =====
-- coupon.go: the normal form of a code.
use airbnb.Common.{
  Text, trim_left, to_upper, ℕ, ◌≡◌, refl, true, [], ◌∷◌, ◌++◌, arith, upper_byte, length,
  trim_space, ok, ◌≤◌,
}
use airbnb.Coupon.{is_code_byte, all_code_bytes, normalize_code, validate_code}
use mathlib.Core.List.{reverse, reverse-cons, reverse-reverse}
use mathlib.Core.Path.{ap₂}

-- A code byte is neither white space nor a small letter.
upper_byte_code : (c : ℕ) → is_code_byte c ≡ true → upper_byte c ≡ c
unfolding upper_byte
upper_byte_code c h = ground arith

to_upper_code : (s : Text) → all_code_bytes s ≡ true → to_upper s ≡ s
unfolding to_upper
to_upper_code [] h = refl
to_upper_code (c ∷ s) h =
    let rest = to_upper_code s (ground arith) in ap₂ ◌∷◌ (upper_byte_code c (ground arith)) rest

trim_left_code : (s : Text) → all_code_bytes s ≡ true → trim_left s ≡ s
unfolding trim_left
trim_left_code [] h = refl
trim_left_code (c ∷ s) h = ground arith

all_code_bytes-append :
    (s t : Text)
    → all_code_bytes s ≡ true
    → all_code_bytes t ≡ true
    → all_code_bytes (s ++ t) ≡ true
all_code_bytes-append [] t h k = k
all_code_bytes-append (c ∷ s) t h k = ground (arith, all_code_bytes-append s t)

all_code_bytes-reverse : (s : Text) → all_code_bytes s ≡ true → all_code_bytes (reverse s) ≡ true
all_code_bytes-reverse [] h = refl
all_code_bytes-reverse (c ∷ s) h = rw (reverse-cons c s) (
    all_code_bytes-append (reverse s) (c ∷ []) (all_code_bytes-reverse s (ground arith))
      (ground arith))

normalize_code-code : (s : Text) → all_code_bytes s ≡ true → normalize_code s ≡ s
unfolding normalize_code trim_space
normalize_code-code s h =
    let right = trim_left_code (reverse s) (all_code_bytes-reverse s h) in
    rw (trim_left_code s h, right, reverse-reverse s) (to_upper_code s h)

-- A code that is accepted has 3 to 32 bytes, each a capital letter, a digit, a dash or an
-- underscore, and is its own normal form: looked up or submitted again, it is accepted unchanged.
pub validate_code_idem :
    (raw : Text) {code : Text}
    → validate_code raw ≡ ok code
    → (3 ≤ length code)
      × (length code ≤ 32)
      × (all_code_bytes code ≡ true)
      × (normalize_code code ≡ code)
      × (validate_code code ≡ ok code)
unfolding validate_code
validate_code_idem raw {code} h =
    let good : all_code_bytes code ≡ true = ground arith in
    let same = normalize_code-code code good in
    (ground arith, ground arith, good, same, ground (arith, same))
