-- ===== src/Integration/Edi/Acknowledgments.antt =====
-- The functional acknowledgment (997) that the processor writes: `generate997Acknowledgment`, lines
-- 851-872 of integration-service/src/connectors/edi-processor.ts.
pub mod Refused
use Prim.Native.String
use Prim.Native.String.{String}
use kpm_cursor.Base.{ℕ, String, Bool, Option, List, [], ◌∷◌, if◌then◌else◌}
use kpm_cursor.Integration.Edi.Segments.{format_edi_date, format_edi_time}
use kpm_cursor.Integration.Edi.Documents.{shown}

-- The local time that a `Date` shows, its month counted from 0, and its milliseconds.
pub record Clock : Type 0 where
  pub time : ℕ
  pub year : ℕ
  pub month : ℕ
  pub day : ℕ
  pub hours : ℕ
  pub minutes : ℕ

abbrev pub concat : List String → String
concat [] = ""
concat (s ∷ ss) = String.◌++◌ s (concat ss)

-- The pieces of the lines that are put together.
abbrev pub isa_rest : String → String → String → List String
isa_rest date time number = date ∷ "*" ∷ time ∷ "*U*00401*" ∷ number ∷ "*0*T*:~" ∷ []

abbrev pub isa_line : String → String → String → List String
isa_line date time number =
    "ISA*00*          *00*          *ZZ*RECEIVER       *ZZ*SENDER         *"
    ∷ isa_rest date time number

abbrev pub gs_line : String → String → String → List String
gs_line date time number =
    "GS*FA*RECEIVER*SENDER*" ∷ date ∷ "*" ∷ time ∷ "*" ∷ number ∷ "*X*004010~" ∷ []

abbrev pub ak1_line : Option String → Option String → List String
ak1_line kind control_number = "AK1*" ∷ shown kind ∷ "*" ∷ shown control_number ∷ "~" ∷ []

abbrev pub ak9_line : Bool → List String
ak9_line accepted =
    "AK9*" ∷ (if accepted then "A" else "R") ∷ "*1*1*" ∷ (if accepted then "1" else "0") ∷ "~" ∷ []

module _ (kind control_number : Option String) (accepted : Bool) (clock : Clock)
    (number : String) where
  -- The lines after the first, each ending in `~`.
  abbrev pub later_lines : List String
  later_lines =
      let date = format_edi_date clock.year clock.month clock.day in
      let time = format_edi_time clock.hours clock.minutes in
      concat (gs_line date time number)
      ∷ "ST*997*0001~"
      ∷ concat (ak1_line kind control_number)
      ∷ concat (ak9_line accepted)
      ∷ "SE*4*0001~"
      ∷ concat ("GE*1*" ∷ number ∷ "~" ∷ [])
      ∷ concat ("IEA*1*" ∷ number ∷ "~" ∷ [])
      ∷ []

  abbrev pub acknowledgment_lines : List String
  acknowledgment_lines =
      let date = format_edi_date clock.year clock.month clock.day in
      let time = format_edi_time clock.hours clock.minutes in
      concat (isa_line date time number) ∷ later_lines

  unfoldable pub generate997_acknowledgment : String
  generate997_acknowledgment = concat acknowledgment_lines
