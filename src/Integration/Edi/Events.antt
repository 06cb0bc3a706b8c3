-- ===== src/Integration/Edi/Events.antt =====
-- What is sent to KMP for a document: the events of `process850PurchaseOrder`, `process856ShipNotice`
-- and `process810Invoice` of integration-service/src/connectors/edi-processor.ts.
use Prim.Native.String.{String}
use kpm_cursor.Base.{ℕ, String, Option, some, List, [], ◌∷◌, ◌++◌, map, length}
use kpm_cursor.Integration.Edi.Types.{
  Numbers, EdiDate, Carrier, Edi850LineItem, Edi850PurchaseOrder, Edi856Item, Edi856Package,
  Edi856ShipNotice, Edi810LineItem, Edi810Invoice, ParsedData, purchase_order, ship_notice, invoice,
}
use kpm_cursor.Integration.Edi.Segments.{or_text}

module _ (N : Numbers) where
  -- The metadata of what is sent to KMP: the document's fields that the source copies.
  pub record OrderMetadata : Type 0 where
    pub po_number : Option String
    pub po_date : EdiDate
    pub line : Edi850LineItem N
    pub buyer : String
    pub vendor : String

  pub record ShipmentMetadata : Type 0 where
    pub shipment_number : Option String
    pub ship_date : EdiDate
    pub estimated_delivery_date : Option EdiDate
    pub carrier : Carrier
    pub tracking_number : Option String
    pub package_id : Option String
    pub quantity_shipped : N.Num
    pub unit_of_measure : String
    pub lot_number : Option String
    pub serial_numbers : Option (List String)
    pub ship_from : String
    pub ship_to : String
    pub related_orders : List (Option String)

  pub record InvoiceMetadata : Type 0 where
    pub invoice_number : Option String
    pub invoice_date : EdiDate
    pub po_number : Option String
    pub total_amount : N.Num
    pub currency : String
    pub payment_terms : String
    pub due_date : Option EdiDate
    pub bill_to : String
    pub remit_to : String
    pub line_item_count : ℕ

pub data Metadata (N : Numbers) : Type 0 where
  edi_850 : OrderMetadata N → Metadata N
  edi_856 : ShipmentMetadata N → Metadata N
  edi_810 : InvoiceMetadata N → Metadata N

pub record KmpEvent (N : Numbers) : Type 0 where
  pub product_id : Option String
  pub location : String
  pub event_type : String
  pub metadata : Metadata N
  pub trading_partner_id : Option String
  pub edi_transaction_id : String

module _ (N : Numbers) where
  module _ (sender : Option String) (id : String) where
    abbrev pub order_event : Edi850PurchaseOrder N → Edi850LineItem N → KmpEvent N
    order_event po item = record {
      product_id = item.item_number;
      location = po.ship_to.name;
      event_type = "PURCHASE_ORDER_CREATED";
      metadata = edi_850 (record {
        po_number = po.po_number;
        po_date = po.po_date;
        line = item;
        buyer = po.buyer.name;
        vendor = po.vendor.name;
      });
      trading_partner_id = sender;
      edi_transaction_id = id;
    }

    abbrev pub shipment_event : Edi856ShipNotice N → Edi856Package N → Edi856Item N → KmpEvent N
    shipment_event notice pkg item = record {
      product_id = item.item_number;
      location = notice.ship_from.name;
      event_type = "SHIPMENT_CREATED";
      metadata = edi_856 (record {
        shipment_number = notice.shipment_number;
        ship_date = notice.ship_date;
        estimated_delivery_date = notice.estimated_delivery_date;
        carrier = notice.carrier;
        tracking_number = notice.tracking_number;
        package_id = pkg.package_id;
        quantity_shipped = item.quantity_shipped;
        unit_of_measure = item.unit_of_measure;
        lot_number = item.lot_number;
        serial_numbers = item.serial_numbers;
        ship_from = notice.ship_from.name;
        ship_to = notice.ship_to.name;
        related_orders = notice.related_orders;
      });
      trading_partner_id = sender;
      edi_transaction_id = id;
    }

    abbrev pub shipment_events : Edi856ShipNotice N → List (Edi856Package N) → List (KmpEvent N)
    shipment_events notice [] = []
    shipment_events notice (pkg ∷ packages) =
        map (shipment_event notice pkg) pkg.items ++ shipment_events notice packages

    abbrev pub first_item : List (Edi810LineItem N) → String
    first_item [] = "MULTI_ITEM"
    first_item (item ∷ items) = or_text item.item_number "MULTI_ITEM"

    abbrev pub invoice_event : Edi810Invoice N → KmpEvent N
    invoice_event bill = record {
      product_id = some (first_item bill.line_items);
      location = bill.bill_to.name;
      event_type = "INVOICE_RECEIVED";
      metadata = edi_810 (record {
        invoice_number = bill.invoice_number;
        invoice_date = bill.invoice_date;
        po_number = bill.po_number;
        total_amount = bill.total_amount;
        currency = bill.currency;
        payment_terms = bill.payment_terms;
        due_date = bill.due_date;
        bill_to = bill.bill_to.name;
        remit_to = bill.remit_to.name;
        line_item_count = length bill.line_items;
      });
      trading_partner_id = sender;
      edi_transaction_id = id;
    }

  -- The events of a document; the processor of its kind sends them in order.
  abbrev pub events_of : Option String → String → ParsedData N → List (KmpEvent N)
  events_of sender id (purchase_order po) = map (order_event sender id po) po.line_items
  events_of sender id (ship_notice notice) = shipment_events sender id notice notice.packages
  events_of sender id (invoice bill) = invoice_event sender id bill ∷ []
  events_of sender id _ = []
