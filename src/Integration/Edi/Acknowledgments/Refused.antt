-- ===== src/Integration/Edi/Acknowledgments/Refused.antt =====
-- What `parseEdiEnvelope` makes of the acknowledgments that the processor writes.
use Prim.Native.String
use Prim.Native.String.{String}
use text.Mathlib.TextLemmas.{nil-append, cons-append, append_assoc}
use kpm_cursor.Base.{
  ℕ, ◌+◌, String, ◌≡◌, refl, ap, ◌∙◌, inl, inr, Bool, false, Option, List, [], ◌∷◌, Bool-cases, All,
}
use kpm_cursor.Base.Text.{has_char, trim, trim_start, trim_end, text_drop}
use kpm_cursor.Base.Text.Laws.{split-lacking, has_char-both, has_char-text_drop}
use kpm_cursor.Base.Integers.{decimal, pad_start}
use kpm_cursor.Base.Integers.Laws.{decimal-lacks, pad_start-lacks}
use kpm_cursor.Integration.Edi.Types.{missing_segment}
use kpm_cursor.Integration.Edi.Segments.{parse_edi_envelope, format_edi_date, format_edi_time}
use kpm_cursor.Integration.Edi.Documents.{shown}
use kpm_cursor.Integration.Edi.Acknowledgments.{
  Clock, concat, isa_rest, later_lines, isa_line, gs_line, ak1_line, ak9_line, acknowledgment_lines,
  generate997_acknowledgment,
}

abbrev Lacks : String → Type 0
Lacks s = has_char 10 s ≡ false

concat-Lacks : (texts : List String) → All Lacks texts → Lacks (concat texts)
concat-Lacks [] h = refl
concat-Lacks (s ∷ texts) h = has_char-both 10 s (concat texts) h.0 (concat-Lacks texts h.1)

padded-Lacks : (n : ℕ) → Lacks (pad_start 2 (decimal n))
padded-Lacks n = pad_start-lacks 10 refl 2 (decimal n) (decimal-lacks 10 refl n)

date-Lacks : (y m d : ℕ) → Lacks (format_edi_date y m d)
unfolding format_edi_date
date-Lacks y m d =
    has_char-both 10 (text_drop 2 (decimal y))
      (String.◌++◌ (pad_start 2 (decimal (m + 1))) (pad_start 2 (decimal d)))
      (has_char-text_drop 10 2 (decimal y) (decimal-lacks 10 refl y))
      (has_char-both 10 (pad_start 2 (decimal (m + 1))) (pad_start 2 (decimal d))
        (padded-Lacks (m + 1)) (padded-Lacks d))

time-Lacks : (h m : ℕ) → Lacks (format_edi_time h m)
unfolding format_edi_time
time-Lacks h m =
    has_char-both 10 (pad_start 2 (decimal h)) (pad_start 2 (decimal m)) (padded-Lacks h)
      (padded-Lacks m)

isa-cons : (s : String) → String.◌++◌ "ISA" s ≡ String.◌∷◌ "I" (String.◌∷◌ "S" (String.◌∷◌ "A" s))
isa-cons s =
    cons-append "I" "SA" s
    ∙ ap (String.◌∷◌ "I") (cons-append "S" "A" s ∙ ap (String.◌∷◌ "S") (cons-append "A" "" s))
    ∙ ap (λ r. String.◌∷◌ "I" (String.◌∷◌ "S" (String.◌∷◌ "A" r))) (nil-append s)

isa-trimmed :
    (s : String)
    → trim (String.◌++◌ "ISA" s) ≡ String.◌∷◌ "I" (String.◌∷◌ "S" (String.◌∷◌ "A" (trim_end s)))
unfolding trim_start trim_end
isa-trimmed s = rw (isa-cons s)

isa-first :
    (lit y z : String)
    → String.◌++◌ (String.◌++◌ (String.◌++◌ "ISA" lit) y) z
      ≡ String.◌++◌ "ISA" (String.◌++◌ lit (String.◌++◌ y z))
isa-first lit y z = rw (append_assoc, append_assoc)

-- A text of one line that starts with ISA has no GS line.
one_line :
    (text s : String)
    → text ≡ String.◌++◌ "ISA" s
    → Lacks text
    → parse_edi_envelope text ≡ inl (missing_segment "GS")
unfolding parse_edi_envelope
one_line text s e h = rw (split-lacking 10 text h, e, isa-trimmed s)

lines-Lacks :
    (kind control_number : Option String) (accepted : Bool) (clock : Clock) (number : String)
    → Lacks (shown kind)
    → Lacks (shown control_number)
    → Lacks number
    → All Lacks (acknowledgment_lines kind control_number accepted clock number)
lines-Lacks kind control_number accepted clock number hk hc hn =
    let date = format_edi_date clock.year clock.month clock.day in
    let time = format_edi_time clock.hours clock.minutes in
    let hd : Lacks date = date-Lacks clock.year clock.month clock.day in
    let ht : Lacks time = time-Lacks clock.hours clock.minutes in
    let ends : All Lacks
        (concat ("GE*1*" ∷ number ∷ "~" ∷ []) ∷ concat ("IEA*1*" ∷ number ∷ "~" ∷ []) ∷ []) =
      (
        concat-Lacks ("GE*1*" ∷ number ∷ "~" ∷ []) (refl, (hn, (refl, tt))),
        (concat-Lacks ("IEA*1*" ∷ number ∷ "~" ∷ []) (refl, (hn, (refl, tt))), tt),
      ) in
    let verdict : Lacks (concat (ak9_line accepted)) = elim (Bool-cases accepted) [
      | inl e ↦ rw e
      | inr e ↦ rw e
    ] in
    let ak1 : Lacks (concat (ak1_line kind control_number)) =
      concat-Lacks (ak1_line kind control_number) (refl, (hk, (refl, (hc, (refl, tt))))) in
    (
      concat-Lacks (isa_line date time number) (refl, (hd, (refl, (ht, (refl, (hn, (refl, tt))))))),
      (
        concat-Lacks (gs_line date time number)
            (refl, (hd, (refl, (ht, (refl, (hn, (refl, tt))))))),
        (refl, (ak1, (verdict, (refl, ends)))),
      ),
    )

-- An acknowledgment that the processor writes has no line end, and the processor refuses it itself, for
-- want of a GS segment, where the acknowledged type and number and the new number hold no line end.
pub parse_edi_envelope-generated :
    (kind control_number : Option String) (accepted : Bool) (clock : Clock) (number : String)
    → has_char 10 (shown kind) ≡ false
    → has_char 10 (shown control_number) ≡ false
    → has_char 10 number ≡ false
    → let written = generate997_acknowledgment kind control_number accepted clock number in
      (has_char 10 written ≡ false) × (parse_edi_envelope written ≡ inl (missing_segment "GS"))
unfolding generate997_acknowledgment
parse_edi_envelope-generated kind control_number accepted clock number hk hc hn =
    let lit : String = "*00*          *00*          *ZZ*RECEIVER       *ZZ*SENDER         *" in
    let date = format_edi_date clock.year clock.month clock.day in
    let time = format_edi_time clock.hours clock.minutes in
    let y = concat (isa_rest date time number) in
    let z = concat (later_lines kind control_number accepted clock number) in
    let lines = acknowledgment_lines kind control_number accepted clock number in
    let no_end : Lacks (concat lines) =
      concat-Lacks lines (lines-Lacks kind control_number accepted clock number hk hc hn) in
    (no_end, one_line (concat lines) (String.◌++◌ lit (String.◌++◌ y z)) (isa-first lit y z) no_end)
