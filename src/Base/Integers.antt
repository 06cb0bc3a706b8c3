-- ===== src/Base/Integers.antt =====
-- Integers, JavaScript's `parseInt` on decimal and hexadecimal texts, and the decimal text of a number.
pub mod Laws
use Prim.Native.Char.{Char, code}
use Prim.Native.Nat.{ℕ, zero, suc, ◌+◌, ◌-◌, ◌*◌, ◌/◌, ◌%◌}
use Prim.Native.String
use Prim.Native.String.{String}
use mathlib.Core.Bool.{Bool, true, false, ◌&&◌, ◌||◌}
use mathlib.Core.Option
use mathlib.Core.Option.{Option, none, some}
use native.Mathlib.Omega.{arith}
use kpm_cursor.Base.Tests.{ltb, leb, ◌==◌, if◌then◌else◌}
use kpm_cursor.Base.Text.{text_length, text_take, text_drop, trim_start}

-- `pos n` is n, `negsuc n` is -(n + 1).
pub data ℤ : Type 0 where
  pos : ℕ → ℤ
  negsuc : ℕ → ℤ

abbrev pub neg : ℕ → ℤ
neg zero = pos 0
neg (suc n) = negsuc n

-- `z - 1`
abbrev pub pred : ℤ → ℤ
pred (pos zero) = negsuc 0
pred (pos (suc n)) = pos n
pred (negsuc n) = negsuc (suc n)

-- `k + z`
abbrev pub add : ℕ → ℤ → ℤ
add k (pos n) = pos (k + n)
add k (negsuc n) = if ltb n k then pos (k - suc n) else negsuc (n - k)

-- `z < k`
abbrev pub below : ℤ → ℕ → Bool
below (pos n) k = ltb n k
below (negsuc n) k = true

-- The value of a digit or of a letter of hexadecimal, and 16 for other characters.
abbrev digit_value : Char → ℕ
digit_value c =
    if leb 48 (code c) && leb (code c) 57
    then code c - 48
    else if leb 97 (code c) && leb (code c) 102
    then code c - 87
    else if leb 65 (code c) && leb (code c) 70
    then code c - 55
    else 16

abbrev read_digits : ℕ → ℕ → String → ℕ
read_digits base n String.[] = n
read_digits base n (String.◌∷◌ c s) =
    if ltb (digit_value c) base then read_digits base (n * base + digit_value c) s else n

-- none where no digit comes first: NaN.
abbrev magnitude : ℕ → String → Option ℕ
magnitude base String.[] = none
magnitude base (String.◌∷◌ c s) =
    if ltb (digit_value c) base then some (read_digits base (digit_value c) s) else none

abbrev after_zero : String → Option ℕ
after_zero String.[] = some 0
after_zero (String.◌∷◌ c s) =
    if code c == b'x' || code c == b'X'
    then magnitude 16 s
    else some (read_digits 10 0 (String.◌∷◌ c s))

abbrev unsigned : String → Option ℕ
unsigned String.[] = none
unsigned (String.◌∷◌ c s) = if code c == b'0' then after_zero s else magnitude 10 (String.◌∷◌ c s)

abbrev signed : String → Option ℤ
signed String.[] = none
signed (String.◌∷◌ c s) =
    if code c == b'-'
    then Option.map neg (unsigned s)
    else if code c == b'+'
    then Option.map pos (unsigned s)
    else Option.map pos (unsigned (String.◌∷◌ c s))

-- `parseInt(s)`
unfoldable pub parse_int : String → Option ℤ
parse_int s = signed (trim_start s)

abbrev digit_text : ℕ → String
digit_text d = text_take 1 (text_drop d "0123456789")

decimal_from : ℕ → ℕ → String → String
decimal_from zero n later = later
decimal_from (suc fuel) n later =
    let more = decimal_from fuel (n / 10) (String.◌++◌ (digit_text (n % 10)) later) in
    if ltb n 10 then String.◌++◌ (digit_text n) later else more

-- `n.toString()`: a round for each digit, and a number has fewer digits than its value and one.
unfoldable pub decimal : ℕ → String
unfolding decimal_from
decimal n = decimal_from (suc n) n ""

abbrev zeros : ℕ → String → String
zeros zero s = s
zeros (suc n) s = String.◌++◌ "0" (zeros n s)

-- `s.padStart(n, '0')`
abbrev pub pad_start : ℕ → String → String
pad_start n s = zeros (n - text_length s) s
