-- ===== src/Integration/Edi/Segments/RoundTrip.antt =====
-- Documents that are written segment by segment and read again by `parseSegments`.
use Prim.Native.String
use Prim.Native.String.{String}
use kpm_cursor.Base.{String, ◌≡◌, refl, ◌≢◌, false, List, [], ◌∷◌, ◌++◌, map, get_or, filter, All}
use kpm_cursor.Base.Text.{has_char, is_empty, split, join, trim, trim_start, trim_end}
use kpm_cursor.Base.Text.Laws.{split-at, split-join}
use kpm_cursor.Integration.Edi.Types.{Segment}
use kpm_cursor.Integration.Edi.Segments.{at, parse_segment, parse_segments, non_empty}

-- A segment as its elements are sent: `*` between them and `~` at the end.
abbrev pub segment_text : List String → String
segment_text elements = join "*" elements

abbrev pub document_text : List (List String) → String
document_text [] = ""
document_text (s ∷ segments) =
    String.◌++◌ (segment_text s) (String.◌∷◌ "~" (document_text segments))

abbrev pub segment_of : List String → Segment
segment_of elements = record { tag = get_or (at 0 elements) ""; elements = elements }

-- Elements that can be sent: there are some, none holds a separator, and the segment's text is not
-- empty and neither starts nor ends with a blank.
pub record IsSendable (elements : List String) : Type 0 where
  pub not_nil : elements ≢ []
  pub separate : All (λ e. has_char b'*' e ≡ false) elements
  pub closed : has_char b'~' (segment_text elements) ≡ false
  pub not_empty : is_empty (segment_text elements) ≡ false
  pub trimmed : trim (segment_text elements) ≡ segment_text elements

pub split-document :
    (segments : List (List String))
    → All IsSendable segments
    → split b'~' (document_text segments) ≡ map segment_text segments ++ "" ∷ []
split-document [] h = unfold split in refl
split-document (s ∷ segments) h =
    rw (
      split-at "~" (segment_text s) (document_text segments) h.0.closed,
      split-document segments h.1,
    )

pub texts-kept :
    (segments : List (List String))
    → All IsSendable segments
    → map parse_segment (filter non_empty (map trim (map segment_text segments ++ "" ∷ [])))
      ≡ map segment_of segments
texts-kept [] h = unfold trim_start trim_end in refl
texts-kept (s ∷ segments) h =
    rw (
      h.0.trimmed,
      h.0.not_empty,
      split-join "*" s h.0.not_nil h.0.separate,
      texts-kept segments h.1,
    )

-- A document of sendable segments that is written with `*` and `~` is read back segment by segment.
pub parse_segments-document_text :
    (segments : List (List String))
    → All IsSendable segments
    → parse_segments (document_text segments) ≡ map segment_of segments
unfolding parse_segments
parse_segments-document_text segments h = rw (split-document segments h, texts-kept segments h)
