-- ===== src/Integration/Edi/Documents/Lines.antt =====
-- The lines of orders, invoices and ship notices, and the events that are sent for them.
use Prim.Native.String.{String}
use kpm_cursor.Base.{
  String, ◌≡◌, refl, sym, ap, ◌∙◌, inl, inr, Bool, Option, List, [], ◌∷◌, map, arith, Option-cases,
  filter, find,
}
use kpm_cursor.Integration.Edi.Types.{
  Numbers, Segment, Edi850LineItem, Edi850PurchaseOrder, purchase_order,
}
use kpm_cursor.Integration.Edi.Segments.{nth, or_else, has_tag, with_rest}
use kpm_cursor.Integration.Edi.Events.{order_event, events_of}
use kpm_cursor.Integration.Edi.Documents.{purchase_order_of, order_line, parse850_purchase_order}

module _ {ℓ} {A : Type ℓ} where
  map-with_rest : (p : A → Bool) (xs : List A) → map (λ e. e.0) (with_rest p xs) ≡ filter p xs
  map-with_rest p [] = refl
  map-with_rest p (x ∷ xs) = ground (arith, map-with_rest p xs)

-- What the line of an order takes from its PO1 segment.
abbrev pub item_number_of : Segment → Option String
item_number_of po1 = or_else (nth 7 po1) (nth 9 po1)

module _ (N : Numbers) where
  lines-numbers :
      (lines : List (Segment × List Segment))
      → map (λ item. item.item_number) (map (order_line N) lines)
        ≡ map item_number_of (map (λ e. e.0) lines)
  lines-numbers [] = refl
  lines-numbers (x ∷ lines) = ap (λ l. item_number_of x.0 ∷ l) (lines-numbers lines)

  events-numbers :
      (sender : Option String) (id : String) (po : Edi850PurchaseOrder N)
      (items : List (Edi850LineItem N))
      → map (λ e. e.product_id) (map (order_event N sender id po) items)
        ≡ map (λ item. item.item_number) items
  events-numbers sender id po [] = refl
  events-numbers sender id po (item ∷ items) =
      ap (λ l. item.item_number ∷ l) (events-numbers sender id po items)

  -- For a purchase order that parses there is one event for each PO1 segment, in order, for the buyer's
  -- part number, or the vendor's where that is missing or empty.
  pub events_of-parse850_purchase_order :
      (sender : Option String) (id : String) (segments : List Segment) (po : Edi850PurchaseOrder N)
      → parse850_purchase_order N segments ≡ inr po
      → map (λ e. e.product_id) (events_of N sender id (purchase_order po))
        ≡ map item_number_of (filter (has_tag "PO1") segments)
  unfolding parse850_purchase_order
  events_of-parse850_purchase_order sender id segments po h =
      elim (Option-cases (find (has_tag "BEG") segments)) [
        | inl e ↦ ground arith
        | inr (beg, e) ↦
            let same : (purchase_order_of N segments beg ≡ po) = ground arith in
            events-numbers sender id po po.line_items
            ∙ ap (λ o. map (λ item. item.item_number) o.line_items) (sym same)
            ∙ lines-numbers (with_rest (has_tag "PO1") segments)
            ∙ ap (map item_number_of) (map-with_rest (has_tag "PO1") segments)
      ]
