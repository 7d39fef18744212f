-- ===== src/Base/Number.antt =====
-- Decimal text: std::to_string, and strtol, strtoul, strtoll, strtoull in base 10 with 64-bit long,
-- as the C standard describes them. A `digits` call has fuel for every digit of its number.
use zzdds_examples.Base.Test.{ltb, leb, ◌==◌, if◌then◌else◌, Bool-cases}
use zzdds_examples.Base.Text.{Text}
use zzdds_examples.Base.Int.{ℤ, pos, negsuc, IsI64, negate}
use Prim.Native.Nat.{ℕ, zero, suc, ◌+◌, ◌-◌, ◌*◌, ◌/◌, ◌%◌, ◌^◌, ◌≤◌, ◌<◌}
use mathlib.Core.Path.{◌≡◌, ap, ◌∙◌, sym}
use mathlib.Core.Logic.{◌≢◌, inl, inr}
use mathlib.Core.Bool.{Bool, true, false, ◌&&◌, ◌||◌}
use mathlib.Core.List.{[], ◌∷◌, ◌++◌, append-nil, append_assoc}
use native.Mathlib.Omega.{arith}

-- The digits of `n`, most significant first.
digits : ℕ → ℕ → Text
digits zero n = []
digits (suc fuel) n =
    let more = digits fuel (n / 10) ++ (b'0' + n % 10) ∷ [] in
    if ltb n 10 then (b'0' + n) ∷ [] else more

unfoldable pub to_string : ℕ → Text
unfolding digits
to_string n = digits (suc n) n

unfoldable pub int_to_string : ℤ → Text
int_to_string (pos n) = to_string n
int_to_string (negsuc n) = b'-' ∷ to_string (suc n)

abbrev is_digit : ℕ → Bool
is_digit c = leb b'0' c && leb c b'9'

-- The value of the digits at the front of a text, after those that gave `acc`.
digits_value : ℕ → Text → ℕ
digits_value acc [] = acc
digits_value acc (c ∷ s) =
    let more = digits_value (acc * 10 + (c - b'0')) s in if is_digit c then more else acc

abbrev is_space : ℕ → Bool
is_space c = (c == b' ') || (leb 9 c && leb c 13)

strip : Text → Text
strip [] = []
strip (c ∷ s) = let rest = strip s in if is_space c then rest else c ∷ s

abbrev Signed : Type 0
Signed = record { minus : Bool; rest : Text }

take_sign : Text → Signed
take_sign [] = record { minus = false; rest = [] }
take_sign (c ∷ s) =
    if c == b'-'
    then record { minus = true; rest = s }
    else if c == b'+'
    then record { minus = false; rest = s }
    else record { minus = false; rest = c ∷ s }

-- strtoul and strtoull: out of range gives the largest value; a minus sign negates modulo 2 ^ 64.
unfoldable pub strtoul : Text → ℕ
unfolding digits_value strip take_sign
strtoul s =
    let n = take_sign (strip s) in
    let v = digits_value 0 n.rest in
    if leb (2 ^ 64) v then 2 ^ 64 - 1 else if n.minus then (2 ^ 64 - v) % 2 ^ 64 else v

-- strtol and strtoll: out of range gives the nearest bound.
unfoldable pub strtol : Text → ℤ
unfolding digits_value strip take_sign
strtol s =
    let n = take_sign (strip s) in
    let v = digits_value 0 n.rest in
    if n.minus
    then if ltb (2 ^ 63) v then negsuc (2 ^ 63 - 1) else negate v
    else if leb (2 ^ 63) v
    then pos (2 ^ 63 - 1)
    else pos v

starts_with_digit : Text → Bool
starts_with_digit [] = false
starts_with_digit (c ∷ s) = is_digit c

-- `endp != nptr` after strtoul(nptr, &endp, 10).
unfoldable pub converts : Text → Bool
unfolding starts_with_digit strip take_sign
converts s = starts_with_digit (take_sign (strip s)).rest

digits_value-digit :
    (acc d : ℕ) (s : Text)
    → d < 10
    → digits_value acc ((b'0' + d) ∷ s) ≡ digits_value (acc * 10 + d) s
unfolding digits_value
digits_value-digit acc d s h = let e : b'0' + d - b'0' ≡ d = omega arith in rw e (ground arith)

digits_value-digits :
    (fuel n : ℕ) (s : Text) → n < fuel → digits_value 0 (digits fuel n ++ s) ≡ digits_value n s
unfolding digits
digits_value-digits zero n s h = elim h [ ]
digits_value-digits (suc fuel) n s h = elim (Bool-cases (ltb n 10)) [
  | inl small ↦
      rw (small, digits)
        (digits_value-digit 0 n s (ground arith) ∙ ap (λ k. digits_value k s) (omega arith))
  | inr large ↦
      rw (large, digits)
        (ap (digits_value 0) (append_assoc (digits fuel (n / 10)) _ s)
          ∙ digits_value-digits fuel (n / 10) _ (ground arith)
          ∙ digits_value-digit (n / 10) (n % 10) s (omega arith)
          ∙ ap (λ k. digits_value k s) (omega arith))
]

-- The first byte of a number's text is a digit, so neither a space nor a sign.
digits_head :
    (fuel n : ℕ) → (c : ℕ) × (s : Text) × (digits (suc fuel) n ≡ c ∷ s) × (48 ≤ c) × (c ≤ 57)
unfolding digits
digits_head zero n = elim (Bool-cases (ltb n 10)) [
  | inl small ↦ (b'0' + n, [], rw (small, digits), omega arith, ground arith)
  | inr large ↦ (b'0' + n % 10, [], rw (large, digits), omega arith, omega arith)
]
digits_head (suc fuel) n = elim (Bool-cases (ltb n 10)) [
  | inl small ↦ (b'0' + n, [], rw (small, digits), omega arith, ground arith)
  | inr large ↦
      let (c, s, e, lo, hi) = digits_head fuel (n / 10) in
      (
        c,
        s ++ (b'0' + n % 10) ∷ [],
        rw (large, digits) (ap (λ t. t ++ (b'0' + n % 10) ∷ []) e),
        lo,
        hi,
      )
]

digits_value-to_string : (n : ℕ) → digits_value 0 (to_string n) ≡ n
unfolding to_string digits_value
digits_value-to_string n =
    ap (digits_value 0) (sym (append-nil (to_string n)))
    ∙ digits_value-digits (suc n) n [] (omega arith)

-- Different numbers have different texts.
pub to_string_injective : (m n : ℕ) → to_string m ≡ to_string n → m ≡ n
to_string_injective m n e =
    sym (digits_value-to_string m) ∙ ap (digits_value 0) e ∙ digits_value-to_string n

-- A number's text is not empty.
pub to_string-ne-nil : (n : ℕ) → to_string n ≢ []
unfolding to_string
to_string-ne-nil n e = let (c, s, h, _, _) = digits_head n n in cc h

front-to_string :
    (n : ℕ) → take_sign (strip (to_string n)) ≡ record { minus = false; rest = to_string n }
unfolding to_string take_sign strip
front-to_string n = let (c, s, e, lo, hi) = digits_head n n in rw e (ground arith)

-- Reading back what std::to_string prints.
pub strtoul-to_string : (n : ℕ) → n < 2 ^ 64 → strtoul (to_string n) ≡ n
unfolding strtoul
strtoul-to_string n h = rw (front-to_string n, digits_value-to_string n) (ground arith)

pub converts-to_string : (n : ℕ) → converts (to_string n) ≡ true
unfolding converts
converts-to_string n =
    let (c, s, e, lo, hi) = digits_head n n in
    rw (front-to_string n) (unfold to_string in rw e (ground arith))

pub strtol-int_to_string : (z : ℤ) → IsI64 z → strtol (int_to_string z) ≡ z
unfolding strtol int_to_string
strtol-int_to_string (pos n) h = rw (front-to_string n, digits_value-to_string n) (ground arith)
strtol-int_to_string (negsuc n) h = ground (arith, digits_value-to_string (suc n))

-- The ranges of the results.
pub strtoul-lt : (s : Text) → strtoul s < 2 ^ 64
unfolding strtoul
strtoul-lt s = ground arith

pub strtol-IsI64 : (s : Text) → IsI64 (strtol s)
unfolding strtol
strtol-IsI64 s = ground arith
