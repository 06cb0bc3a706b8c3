-- ===== src/Base/Integers/Laws.antt =====
-- What the decimal text of a number does not contain.
use Prim.Native.Nat.{ℕ, zero, suc, ◌-◌, ◌/◌, ◌%◌}
use Prim.Native.String.{String}
use mathlib.Core.Path.{◌≡◌, refl}
use mathlib.Core.Logic.{inl, inr}
use mathlib.Core.Bool.{false}
use kpm_cursor.Base.Tests.{ltb, Bool-cases}
use kpm_cursor.Base.Integers.{digit_text, decimal_from, decimal, zeros, pad_start}
use kpm_cursor.Base.Text.{has_char, text_length}
use kpm_cursor.Base.Text.Laws.{has_char-text_drop, has_char-text_take, has_char-both}

module _ (sep : ℕ) (h : has_char sep "0123456789" ≡ false) where
  digit_text-lacks : (d : ℕ) → has_char sep (digit_text d) ≡ false
  digit_text-lacks d = has_char-text_take sep 1 _ (has_char-text_drop sep d "0123456789" h)

  decimal_from-lacks :
      (fuel n : ℕ) (later : String)
      → has_char sep later ≡ false
      → has_char sep (decimal_from fuel n later) ≡ false
  unfolding decimal_from
  decimal_from-lacks zero n later hl = hl
  decimal_from-lacks (suc fuel) n later hl = elim (Bool-cases (ltb n 10)) [
    | inl e ↦ rw e (has_char-both sep (digit_text n) later (digit_text-lacks n) hl)
    | inr e ↦ rw e (
        decimal_from-lacks fuel (n / 10) _
          (has_char-both sep (digit_text (n % 10)) later (digit_text-lacks (n % 10)) hl))
  ]

  pub decimal-lacks : (n : ℕ) → has_char sep (decimal n) ≡ false
  unfolding decimal
  decimal-lacks n = decimal_from-lacks (suc n) n "" refl

  zeros-lacks : (n : ℕ) (s : String) → has_char sep s ≡ false → has_char sep (zeros n s) ≡ false
  zeros-lacks zero s hs = hs
  zeros-lacks (suc n) s hs = has_char-both sep "0" _ (digit_text-lacks 0) (zeros-lacks n s hs)

  pub pad_start-lacks :
      (n : ℕ) (s : String) → has_char sep s ≡ false → has_char sep (pad_start n s) ≡ false
  pad_start-lacks n s hs = zeros-lacks (n - text_length s) s hs
