-- ===== src/Base/Text/Laws.antt =====
-- Lemmas on splitting, joining and trimming texts.
use Prim.Native.Char.{Char, code}
use Prim.Native.Nat.{ℕ, zero, suc}
use Prim.Native.String
use Prim.Native.String.{String}
use mathlib.Core.Path.{◌≡◌, refl}
use mathlib.Core.Logic.{◌≢◌}
use mathlib.Core.Bool.{Bool, true, false, not, ◌||◌}
use mathlib.Core.List.{List, [], ◌∷◌}
use native.Mathlib.Omega.{arith}
use text.Mathlib.TextLemmas.{nil-append, cons-append}
use kpm_cursor.Base.Tests.{◌==◌, ==_iff}
use kpm_cursor.Base.Lists.{All}
use kpm_cursor.Base.Text.{
  has_prefix, has_char, split, join, is_empty, trim_end, text_take, text_drop,
}

-- A text without the separator is one part.
pub split-lacking : (sep : ℕ) (s : String) → has_char sep s ≡ false → split sep s ≡ s ∷ []
unfolding split
split-lacking sep String.[] h = refl
split-lacking sep (String.◌∷◌ c s) h = ground (arith, split-lacking sep s)

-- Up to a separator, a text without it is the first part.
pub split-at :
    (c : Char) (p s : String)
    → has_char (code c) p ≡ false
    → split (code c) (String.◌++◌ p (String.◌∷◌ c s)) ≡ p ∷ split (code c) s
unfolding split
split-at c String.[] s h = rw nil-append (ground (arith, ==_iff (code c) (code c)))
split-at c (String.◌∷◌ d p) s h = rw cons-append (ground (arith, split-at c p s))

pub split-join :
    (c : Char) (ps : List String)
    → ps ≢ []
    → All (λ p. has_char (code c) p ≡ false) ps
    → split (code c) (join c ps) ≡ ps
unfolding join
split-join c [] h _ = absurd (h refl)
split-join c (p ∷ []) h a = split-lacking (code c) p a.0
split-join c (p ∷ (q ∷ ps)) h a =
    rw (split-at c p (join c (q ∷ ps)) a.0, split-join c (q ∷ ps) (λ e. ground arith) a.1)

pub has_char-append :
    (sep : ℕ) (s t : String) → has_char sep (String.◌++◌ s t) ≡ has_char sep s || has_char sep t
has_char-append sep String.[] t = rw nil-append
has_char-append sep (String.◌∷◌ c s) t = rw cons-append (ground (arith, has_char-append sep s t))

pub is_empty-append : (s t : String) → is_empty t ≡ false → is_empty (String.◌++◌ s t) ≡ false
is_empty-append String.[] t h = rw nil-append h
is_empty-append (String.◌∷◌ c s) t h = rw cons-append

pub trim_end-append :
    (s t : String)
    → is_empty (trim_end t) ≡ false
    → trim_end (String.◌++◌ s t) ≡ String.◌++◌ s (trim_end t)
unfolding trim_end
trim_end-append String.[] t h = rw (nil-append, nil-append)
trim_end-append (String.◌∷◌ c s) t h =
    rw (cons-append, cons-append, trim_end-append s t h)
      (ground (arith, is_empty-append s (trim_end t)))

pub has_char-text_drop :
    (sep n : ℕ) (s : String) → has_char sep s ≡ false → has_char sep (text_drop n s) ≡ false
has_char-text_drop sep zero s h = h
has_char-text_drop sep (suc n) String.[] h = h
has_char-text_drop sep (suc n) (String.◌∷◌ c s) h = has_char-text_drop sep n s (ground arith)

pub has_char-text_take :
    (sep n : ℕ) (s : String) → has_char sep s ≡ false → has_char sep (text_take n s) ≡ false
has_char-text_take sep zero s h = refl
has_char-text_take sep (suc n) String.[] h = h
has_char-text_take sep (suc n) (String.◌∷◌ c s) h = ground (arith, has_char-text_take sep n s)

pub has_char-both :
    (sep : ℕ) (s t : String)
    → has_char sep s ≡ false
    → has_char sep t ≡ false
    → has_char sep (String.◌++◌ s t) ≡ false
has_char-both sep s t hs ht = rw (has_char-append, hs, ht)

pub has_prefix-append : (p s : String) → has_prefix p (String.◌++◌ p s) ≡ true
has_prefix-append String.[] s = refl
has_prefix-append (String.◌∷◌ c p) s =
    rw cons-append (ground (arith, has_prefix-append p s, ==_iff (code c) (code c)))

-- Two texts that differ where both have a character.
abbrev pub diverges : String → String → Bool
diverges String.[] q = false
diverges (String.◌∷◌ c p) String.[] = false
diverges (String.◌∷◌ c p) (String.◌∷◌ d q) = not (code c == code d) || diverges p q

pub has_prefix-diverges :
    (p q s : String) → diverges p q ≡ true → has_prefix p (String.◌++◌ q s) ≡ false
has_prefix-diverges String.[] q s h = ground arith
has_prefix-diverges (String.◌∷◌ c p) String.[] s h = ground arith
has_prefix-diverges (String.◌∷◌ c p) (String.◌∷◌ d q) s h =
    rw cons-append (ground (arith, has_prefix-diverges p q s))

pub is_empty-append_first : (p s : String) → is_empty p ≡ false → is_empty (String.◌++◌ p s) ≡ false
is_empty-append_first String.[] s h = ground arith
is_empty-append_first (String.◌∷◌ c p) s h = rw cons-append
