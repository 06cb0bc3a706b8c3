-- ===== src/Integration/Epcis/Epcs.antt =====
-- The product that is read from the EPCs that `generateEPC` makes.
use Prim.Native.String
use Prim.Native.String.{String}
use text.Mathlib.TextLemmas.{nil-append, cons-append, append_assoc}
use kpm_cursor.Base.{String, ◌≡◌, refl, ap, ◌∙◌, false, none, some, [], ◌∷◌}
use kpm_cursor.Base.Text.{has_char, split}
use kpm_cursor.Base.Text.Laws.{
  split-at, split-lacking, has_char-both, has_prefix-append, has_prefix-diverges,
  is_empty-append_first,
}
use kpm_cursor.Integration.Epcis.Transform.{
  extract_product_id_from_epc, two_parts, dotted, sgtin, sscc, grai, generate_epc,
}

piece :
    (p q body : String)
    → String.◌++◌ (String.◌++◌ p (String.◌∷◌ ":" q)) body
      ≡ String.◌++◌ p (String.◌∷◌ ":" (String.◌++◌ q body))
piece p q body =
    append_assoc p (String.◌∷◌ ":" q) body ∙ ap (String.◌++◌ p) (cons-append ":" q body)

-- The first four parts of an EPC are literal and the fifth is its body.
split-epc :
    (kind body : String)
    → has_char b':' kind ≡ false
    → has_char b':' body ≡ false
    → split b':' (String.◌++◌ "urn:epc:id:" (String.◌++◌ kind (String.◌∷◌ ":" body)))
      ≡ "urn" ∷ "epc" ∷ "id" ∷ kind ∷ body ∷ []
split-epc kind body hk hb =
    let tail = String.◌++◌ kind (String.◌∷◌ ":" body) in
    rw (
      piece "urn" "epc:id:" tail,
      split-at ":" "urn" (String.◌++◌ "epc:id:" tail) refl,
      piece "epc" "id:" tail,
      split-at ":" "epc" (String.◌++◌ "id:" tail) refl,
      piece "id" "" tail,
      nil-append tail,
      split-at ":" "id" tail refl,
      split-at ":" kind body hk,
      split-lacking b':' body hb,
    )

dotted-cons : (a b : String) → dotted a b ≡ String.◌++◌ a (String.◌∷◌ "." b)
dotted-cons a b = ap (String.◌++◌ a) (cons-append "." "" b ∙ ap (String.◌∷◌ ".") (nil-append b))

two_parts-dotted :
    (a b c : String)
    → has_char b'.' a ≡ false
    → has_char b'.' b ≡ false
    → two_parts (dotted a (dotted b c)) ≡ dotted a b
two_parts-dotted a b c ha hb = rw (
  dotted-cons a (dotted b c),
  split-at "." a (dotted b c) ha,
  dotted-cons b c,
  split-at "." b c hb,
)

-- A part of an EPC that holds neither separator.
abbrev pub IsPart : String → Type 0
IsPart s = (has_char b':' s ≡ false) × (has_char b'.' s ≡ false)

dotted-IsPart :
    (a b : String)
    → has_char b':' a ≡ false
    → has_char b':' b ≡ false
    → has_char b':' (dotted a b) ≡ false
dotted-IsPart a b ha hb =
    has_char-both b':' a (String.◌++◌ "." b) ha (has_char-both b':' "." b refl hb)

extract_sgtin :
    (p i s : String)
    → IsPart p
    → IsPart i
    → IsPart s
    → extract_product_id_from_epc (String.◌++◌ "urn:epc:id:sgtin:" (dotted p (dotted i s)))
      ≡ dotted p i
unfolding extract_product_id_from_epc
extract_sgtin p i s hp hi hs =
    let body = dotted p (dotted i s) in
    rw
      (
        is_empty-append_first "urn:epc:id:sgtin:" body refl,
        has_prefix-append "urn:epc:id:sgtin:" body,
        append_assoc "urn:epc:id:" "sgtin:" body,
        piece "sgtin" "" body,
        nil-append body,
        split-epc "sgtin" body refl (dotted-IsPart p _ hp.0 (dotted-IsPart i s hi.0 hs.0)),
      )
      (two_parts-dotted p i s hp.1 hi.1)

extract_grai :
    (p i s : String)
    → IsPart p
    → IsPart i
    → IsPart s
    → extract_product_id_from_epc (String.◌++◌ "urn:epc:id:grai:" (dotted p (dotted i s)))
      ≡ dotted p i
unfolding extract_product_id_from_epc
extract_grai p i s hp hi hs =
    let body = dotted p (dotted i s) in
    rw
      (
        is_empty-append_first "urn:epc:id:grai:" body refl,
        has_prefix-diverges "urn:epc:id:sgtin:" "urn:epc:id:grai:" body refl,
        has_prefix-diverges "urn:epc:id:sscc:" "urn:epc:id:grai:" body refl,
        has_prefix-append "urn:epc:id:grai:" body,
        append_assoc "urn:epc:id:" "grai:" body,
        piece "grai" "" body,
        nil-append body,
        split-epc "grai" body refl (dotted-IsPart p _ hp.0 (dotted-IsPart i s hi.0 hs.0)),
      )
      (two_parts-dotted p i s hp.1 hi.1)

extract_sscc :
    (p s : String)
    → IsPart p
    → IsPart s
    → extract_product_id_from_epc (String.◌++◌ "urn:epc:id:sscc:" (dotted p s)) ≡ dotted p s
unfolding extract_product_id_from_epc
extract_sscc p s hp hs =
    let body = dotted p s in
    rw (
      is_empty-append_first "urn:epc:id:sscc:" body refl,
      has_prefix-diverges "urn:epc:id:sgtin:" "urn:epc:id:sscc:" body refl,
      has_prefix-append "urn:epc:id:sscc:" body,
      append_assoc "urn:epc:id:" "sscc:" body,
      piece "sscc" "" body,
      nil-append body,
      split-epc "sscc" body refl (dotted-IsPart p s hp.0 hs.0),
    )

-- Of an EPC that is generated from parts without `:` and `.`, the product id is the company prefix and
-- the item reference, the asset reference or, for an SSCC, the serial number, with a dot between.
pub extract_product_id_from_epc-generate :
    (prefix reference serial : String)
    → IsPart prefix
    → IsPart reference
    → IsPart serial
    → (extract_product_id_from_epc (generate_epc sgtin prefix (some reference) (some serial) none)
        ≡ dotted prefix reference)
      × (extract_product_id_from_epc (generate_epc grai prefix none (some serial) (some reference))
          ≡ dotted prefix reference)
      × (extract_product_id_from_epc (generate_epc sscc prefix none (some serial) none)
          ≡ dotted prefix serial)
unfolding generate_epc
extract_product_id_from_epc-generate prefix reference serial hp hr hs = (
  extract_sgtin prefix reference serial hp hr hs,
  extract_grai prefix reference serial hp hr hs,
  extract_sscc prefix serial hp hs,
)
