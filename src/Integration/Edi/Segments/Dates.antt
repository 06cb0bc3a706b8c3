-- ===== src/Integration/Edi/Segments/Dates.antt =====
-- Dates that `formatEdiDate` writes and `parseEdiDate` reads.
use Prim.Native.Char.{Char}
use Prim.Native.String
use mathlib.Core.Option
use Prim.Native.String.{String}
use text.Mathlib.TextLemmas.{nil-append, cons-append}
use kpm_cursor.Base.{
  ℕ, zero, suc, ◌+◌, ◌-◌, ◌%◌, ◌≤◌, ◌<◌, String, ◌≡◌, refl, ap, subst, Bool, true, false, ◌&&◌,
  Option, none, some, arith, ◌==◌,
}
use kpm_cursor.Base.Integers.{ℤ, pos, negsuc, parse_int, pred, decimal, pad_start}
use kpm_cursor.Base.Text.{trim_start, text_length, text_drop}
use kpm_cursor.Integration.Edi.Types.{calendar}
use kpm_cursor.Integration.Edi.Segments.{century, parse_edi_date, format_edi_date}

abbrev is_pos : ℕ → Option ℤ → Bool
is_pos n (some (pos m)) = m == n
is_pos n _ = false

-- A text of two characters that is read as `n`.
abbrev writes : ℕ → String → Bool
writes n text = (text_length text == 2) && is_pos n (parse_int text)

abbrev all_below : (ℕ → Bool) → ℕ → Bool
all_below p zero = true
all_below p (suc n) = p n && all_below p n

pub all_below-at : (p : ℕ → Bool) (n i : ℕ) → all_below p n ≡ true → i < n → p i ≡ true
all_below-at p zero i h lt = ground arith
all_below-at p (suc n) i h lt = ground (arith, all_below-at p n i)

numbers_written : all_below (λ n. writes n (pad_start 2 (decimal n))) 100 ≡ true
unfolding decimal parse_int trim_start
numbers_written = refl

years_written :
    all_below (λ n. writes ((1950 + n) % 100) (text_drop 2 (decimal (1950 + n)))) 100 ≡ true
unfolding decimal parse_int trim_start
years_written = refl

is_pos-equal : (n : ℕ) (z : Option ℤ) → is_pos n z ≡ true → z ≡ some (pos n)
is_pos-equal n (some (pos m)) h = ground arith
is_pos-equal n (some (negsuc m)) h = ground arith
is_pos-equal n none h = ground arith

-- A text that is read as a number has two characters.
abbrev IsTwo : String → ℕ → Type 0
IsTwo t n =
    (c : Char) × (d : Char) × (t ≡ String.◌∷◌ c (String.◌∷◌ d ""))
    × (parse_int (String.◌∷◌ c (String.◌∷◌ d "")) ≡ some (pos n))

writes-IsTwo : (n : ℕ) (t : String) → writes n t ≡ true → IsTwo t n
writes-IsTwo n String.[] h = ground arith
writes-IsTwo n (String.◌∷◌ c String.[]) h = ground arith
writes-IsTwo n (String.◌∷◌ c (String.◌∷◌ d String.[])) h =
    (c, d, refl, is_pos-equal n _ (ground arith))
writes-IsTwo n (String.◌∷◌ c (String.◌∷◌ d (String.◌∷◌ e t))) h = ground arith

abbrev pair : Char → Char → String
pair c d = String.◌∷◌ c (String.◌∷◌ d "")

pair-append :
    (a b c d e f : Char)
    → String.◌++◌ (pair a b) (String.◌++◌ (pair c d) (pair e f))
      ≡ String.◌∷◌ a (String.◌∷◌ b (String.◌∷◌ c (String.◌∷◌ d (pair e f))))
pair-append a b c d e f = simp (cons-append, nil-append)

read_six :
    (a b c d e f : Char)
    → parse_edi_date (some (String.◌++◌ (pair a b) (String.◌++◌ (pair c d) (pair e f))))
      ≡ calendar
          (century (parse_int (pair a b)))
          (Option.map pred (parse_int (pair c d)))
          (parse_int (pair e f))
unfolding parse_edi_date parse_int
read_six a b c d e f = rw (pair-append a b c d e f)

read_parts :
    (a b c : String) (y m d : ℕ)
    → IsTwo a y
    → IsTwo b m
    → IsTwo c d
    → parse_edi_date (some (String.◌++◌ a (String.◌++◌ b c)))
      ≡ calendar (century (some (pos y))) (some (pred (pos m))) (some (pos d))
read_parts a b c y m d (a1, a2, ea, pa) (b1, b2, eb, pb) (c1, c2, ec, pc) =
    rw (ea, eb, ec, read_six a1 a2 b1 b2 c1 c2, pa, pb, pc)

windowed : (n : ℕ) → n < 100 → century (some (pos ((1950 + n) % 100))) ≡ some (pos (1950 + n))
windowed n lt = ground arith

pred-pos : (n : ℕ) → pred (pos (n + 1)) ≡ pos n
pred-pos n = let e : (n + 1 ≡ suc n) = omega arith in ap (λ k. pred (pos k)) e

IsTwo-digits : (n : ℕ) → n < 100 → IsTwo (pad_start 2 (decimal n)) n
IsTwo-digits n lt =
    writes-IsTwo n _
      (all_below-at (λ x. writes x (pad_start 2 (decimal x))) 100 n numbers_written lt)

IsTwo-of_year : (n : ℕ) → n < 100 → IsTwo (text_drop 2 (decimal (1950 + n))) ((1950 + n) % 100)
IsTwo-of_year n lt = writes-IsTwo _ _ (
    all_below-at (λ x. writes ((1950 + x) % 100) (text_drop 2 (decimal (1950 + x)))) 100 n
      years_written lt)

written_from_1950 :
    (n month day : ℕ)
    → n < 100
    → month < 12
    → day ≤ 31
    → parse_edi_date (some (format_edi_date (1950 + n) month day))
      ≡ calendar (some (pos (1950 + n))) (some (pos month)) (some (pos day))
unfolding format_edi_date
written_from_1950 n month day lt hm hd = rw (
  read_parts _ _ _ _ _ _ (IsTwo-of_year n lt) (IsTwo-digits (month + 1) (omega arith))
      (IsTwo-digits day (omega arith)),
  windowed n lt,
  pred-pos month,
)

-- A date of the years 1950 to 2049 that the processor writes with six digits is read back as the same
-- day, month (counted from 0) and year.
pub parse_edi_date-format :
    (year month day : ℕ)
    → 1950 ≤ year
    → year ≤ 2049
    → month < 12
    → day ≤ 31
    → parse_edi_date (some (format_edi_date year month day))
      ≡ calendar (some (pos year)) (some (pos month)) (some (pos day))
parse_edi_date-format year month day low high hm hd =
    let e : (1950 + (year - 1950) ≡ year) = omega arith in
    subst
      (λ y.
        parse_edi_date (some (format_edi_date y month day))
        ≡ calendar (some (pos y)) (some (pos month)) (some (pos day)))
      e (written_from_1950 (year - 1950) month day (omega arith) hm hd)
