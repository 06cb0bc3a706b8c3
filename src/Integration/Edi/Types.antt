-- ===== src/Integration/Edi/Types.antt =====
-- The interfaces of integration-service/src/connectors/edi-processor.ts. An element that a segment may
-- lack is an `Option`. Of the optional fields those are kept that the code reads or writes. Floating
-- point numbers are a parameter, with the operations that the code uses.
use kpm_cursor.Base.{ℕ, String, Bool, Option, List}
use kpm_cursor.Base.Integers.{ℤ}

-- JavaScript's numbers, `parseFloat`, and the integers that `parseInt` reads.
pub record Numbers : Type 1 where
  pub Num : Type 0
  pub zero : Num
  pub plus : Num → Num → Num
  pub times : Num → Num → Num
  pub parse_float : Option String → Num

-- `new Date()` or `new Date(year, month, day)`, where a part is missing when it is NaN.
pub data EdiDate : Type 0 where
  now : EdiDate
  calendar : Option ℤ → Option ℤ → Option ℤ → EdiDate

pub record TradingPartner : Type 0 where
  pub id : Option String
  pub name : Option String
  pub qualifier_id : Option String
  pub edi_address : Option String
  pub connection_type : String
  pub capabilities : List String
  pub test_indicator : Bool

pub record Address : Type 0 where
  pub line1 : String
  pub line2 : Option String
  pub city : String
  pub state : String
  pub postal_code : String
  pub country : String

-- The `{ name, address }` objects of parties.
pub record Party : Type 0 where
  pub name : String
  pub address : Address

-- What `parseEdiEnvelope` returns, less the separators, which nothing reads.
pub record Envelope : Type 0 where
  pub transaction_type : Option String
  pub control_number : Option String
  pub sender : TradingPartner
  pub receiver : TradingPartner

pub record Segment : Type 0 where
  pub tag : String
  pub elements : List String

pub record Carrier : Type 0 where
  pub scac : String
  pub name : String
  pub method : String

module _ (N : Numbers) where
  pub record Edi850LineItem : Type 0 where
    pub line_number : Option String
    pub item_number : Option String
    pub item_description : String
    pub quantity : N.Num
    pub unit_of_measure : Option String
    pub unit_price : N.Num
    pub total_price : N.Num
    pub requested_delivery_date : Option EdiDate
    pub buyer_part_number : Option String
    pub vendor_part_number : Option String

  pub record Edi850PurchaseOrder : Type 0 where
    pub po_number : Option String
    pub po_date : EdiDate
    pub buyer : Party
    pub vendor : Party
    pub ship_to : Party
    pub currency : String
    pub line_items : List Edi850LineItem
    pub total_amount : N.Num

  pub record Edi856Item : Type 0 where
    pub line_number : Option String
    pub item_number : Option String
    pub item_description : String
    pub quantity_shipped : N.Num
    pub unit_of_measure : String
    pub lot_number : Option String
    pub serial_numbers : Option (List String)

  pub record Edi856Package : Type 0 where
    pub package_id : Option String
    pub packaging_type : String
    pub items : List Edi856Item

  pub record Edi856ShipNotice : Type 0 where
    pub shipment_number : Option String
    pub ship_date : EdiDate
    pub estimated_delivery_date : Option EdiDate
    pub carrier : Carrier
    pub tracking_number : Option String
    pub ship_from : Party
    pub ship_to : Party
    pub packages : List Edi856Package
    pub related_orders : List (Option String)

  pub record Edi810LineItem : Type 0 where
    pub line_number : Option String
    pub item_number : Option String
    pub item_description : String
    pub quantity : N.Num
    pub unit_of_measure : Option String
    pub unit_price : N.Num
    pub total_price : N.Num

  pub record Edi810Invoice : Type 0 where
    pub invoice_number : Option String
    pub invoice_date : EdiDate
    pub po_number : Option String
    pub bill_to : Party
    pub remit_to : Party
    pub payment_terms : String
    pub due_date : Option EdiDate
    pub currency : String
    pub line_items : List Edi810LineItem
    pub subtotal : N.Num
    pub total_amount : N.Num

pub record EdiAcknowledgment : Type 0 where
  pub original_transaction_id : Option String
  pub accepted : Bool
  pub error_codes : List String
  pub error_messages : List String

-- The `parsedData` of a transaction.
pub data ParsedData (N : Numbers) : Type 0 where
  purchase_order : Edi850PurchaseOrder N → ParsedData N
  order_acknowledged : ParsedData N
  ship_notice : Edi856ShipNotice N → ParsedData N
  invoice : Edi810Invoice N → ParsedData N
  functional_ack : EdiAcknowledgment → ParsedData N

pub data Status : Type 0 where
  received parsed processed error acknowledged : Status

pub Status-discrete : Discrete Status
Status-discrete = hlevel

pub record EdiTransaction (N : Numbers) : Type 0 where
  pub transaction_id : String
  pub transaction_type : Option String
  pub sender : TradingPartner
  pub receiver : TradingPartner
  pub timestamp : ℕ
  pub control_number : Option String
  pub raw_data : String
  pub parsed_data : Option (ParsedData N)
  pub status : Status
  pub error_messages : List String
  pub acknowledgment_required : Bool
  pub acknowledgment_sent : Option ℕ

-- What the methods throw, by the message's text.
pub data EdiError : Type 0 where
  missing_segment : String → EdiError
  unknown_trading_partner : String → EdiError
  unsupported_type : Option String → EdiError
  kmp_request_failed : EdiError
