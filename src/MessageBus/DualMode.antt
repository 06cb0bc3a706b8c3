-- ===== src/MessageBus/DualMode.antt =====
-- The class `DualModeHandler` of message_bus/src/dual-mode-handler.ts. A step is what runs between two
-- `await`s: a request up to its `appendFile`, the timer's callback up to it, or what follows when an
-- append is settled; so requests may come while a line is being appended. What hashes events and builds
-- Merkle roots (Node's crypto, merkletreejs, keccak256) is a parameter.
pub mod Waiting
pub mod Served
mod Tests
use Prim.Native.String.{String}
use kpm_cursor.Base.{
  ℕ, String, Bool, true, false, Option, none, some, List, [], ◌∷◌, ◌++◌, map, str_eq, leb,
  if◌then◌else◌, length, any,
}
use kpm_cursor.Base.Text.{is_empty}
use kpm_cursor.Base.Dict.{Dict, get}

pub record Hashes : Type 0 where
  -- sha256 of the event's JSON text
  pub event_hash : String → String
  -- `getHexRoot` of the tree over the JSON texts, less its `0x`
  pub merkle_root : List String → String

pub data ModeType : Type 0 where
  batch immediate : ModeType

pub record AnchoringMode : Type 0 where
  pub mode_type : ModeType
  pub priority : Option String
  pub company_id : String
  pub event_id : Option String

pub record ServiceTier : Type 0 where
  pub name : String
  pub allows_immediate : Bool

abbrev pub service_tiers : Dict ServiceTier
service_tiers =
    ("standard", record { name = "Standard"; allows_immediate = true })
    ∷ ("premium", record { name = "Premium"; allows_immediate = true })
    ∷ ("enterprise", record { name = "Enterprise"; allows_immediate = true })
    ∷ []

-- `priority || 'standard'`
abbrev pub priority_of : Option String → String
priority_of none = "standard"
priority_of (some s) = if is_empty s then "standard" else s

-- `content` is the JSON text of the event with its company and time.
pub record BatchedEvent : Type 0 where
  pub content : String
  pub company_id : String
  pub timestamp : ℕ

-- The lines of the pending file.
pub data QueueEntry : Type 0 where
  immediate_entry :
      (hash company_id : String) (event_id : Option String) (timestamp : ℕ) (priority : String)
      → QueueEntry
  batch_entry : (hash : String) (event_count timestamp : ℕ) (companies : List String) → QueueEntry

pub data Timer : Type 0 where
  -- null; set and to fire; fired, with the handle still in `batchTimer`
  unset running fired : Timer

pub data Reply : Type 0 where
  not_available : String → Reply
  anchored : String → Reply
  failed_to_anchor : Reply
  -- the length that the message shows
  added : ℕ → Reply
  -- a TypeError: the tier of the priority is undefined
  rejected : Reply

pub record Handler : Type 0 where
  pub batched_events : List BatchedEvent
  pub batch_timer : Timer
  -- the batch lines that are being appended, and whether a request waits for that
  pub appending : List (QueueEntry × Bool)
  pub lines : List QueueEntry
  pub replies : List Reply

abbrev pub batch_size : ℕ
batch_size = 50

abbrev add_company : List String → String → List String
add_company seen c = if any (λ d. str_eq d c) seen then seen else seen ++ c ∷ []

-- `[...new Set(companies)]`
abbrev pub distinct_from : List String → List String → List String
distinct_from seen [] = seen
distinct_from seen (c ∷ cs) = distinct_from (add_company seen c) cs

abbrev pub reply : Reply → Handler → Handler
reply r h = record h { replies = h.replies ++ r ∷ [] }

abbrev pub started : Timer → Timer
started unset = running
started running = running
started fired = fired

module _ (H : Hashes) where
  abbrev pub batch_line : ℕ → List BatchedEvent → QueueEntry
  batch_line now events =
      batch_entry (H.merkle_root (map (λ e. e.content) events)) (length events) now
        (distinct_from [] (map (λ e. e.company_id) events))

  abbrev pub start_with : ℕ → Bool → List BatchedEvent → Handler → Handler
  start_with now asked [] h = h
  start_with now asked events h = record h {
    appending = h.appending ++ (batch_line now events, asked) ∷ [];
  }

  -- `processBatch` up to its `appendFile`
  abbrev pub start_batch : ℕ → Bool → Handler → Handler
  start_batch now asked h = start_with now asked h.batched_events h

  unfoldable pub add_to_batch : ℕ → BatchedEvent → Handler → Handler
  add_to_batch now event h =
      let pushed : Handler = record h {
        batched_events = h.batched_events ++ event ∷ [];
        batch_timer = started h.batch_timer;
      } in
      if leb batch_size (length pushed.batched_events)
      then start_batch now true (record pushed { batch_timer = unset })
      else reply (added (length pushed.batched_events)) pushed

  -- The append of an immediate event, settled at once.
  abbrev pub anchor_event_immediately : String → AnchoringMode → ℕ → Bool → Handler → Handler
  anchor_event_immediately content mode now appended h =
      if appended
      then reply (anchored (H.event_hash content)) (record h {
        lines =
            h.lines
            ++ immediate_entry (H.event_hash content) mode.company_id mode.event_id now
                (priority_of mode.priority)
              ∷ [];
      })
      else reply failed_to_anchor h

  abbrev immediate_for : Option ServiceTier → String → AnchoringMode → ℕ → Bool → Handler → Handler
  immediate_for none content mode now appended h = reply rejected h
  immediate_for (some tier) content mode now appended h =
      if tier.allows_immediate
      then anchor_event_immediately content mode now appended h
      else reply (not_available tier.name) h

  -- `processEvent` for the JSON text of the event alone, and with the company and the time
  unfoldable pub process_event : String → String → AnchoringMode → ℕ → Bool → Handler → Handler
  process_event content batched mode now appended h = elim mode.mode_type [
    | immediate ↦
        immediate_for (get (priority_of mode.priority) service_tiers) content mode now appended h
    | batch ↦
        add_to_batch now
          (record { content = batched; company_id = mode.company_id; timestamp = now }) h
  ]

  -- The callback of `setTimeout`; nothing resets `batchTimer`.
  abbrev pub fire_when : ℕ → Timer → Handler → Handler
  fire_when now running h = start_batch now false (record h { batch_timer = fired })
  fire_when now unset h = h
  fire_when now fired h = h

  unfoldable pub fire : ℕ → Handler → Handler
  fire now h = fire_when now h.batch_timer h

abbrev pub answered : Bool → Handler → Handler
answered asked h = if asked then reply (added (length h.batched_events)) h else h

abbrev pub settle_first : Bool → List (QueueEntry × Bool) → Handler → Handler
settle_first appended [] h = h
settle_first appended ((line, asked) ∷ later) h = answered asked (
    if appended
    then record h { batched_events = []; appending = later; lines = h.lines ++ line ∷ [] }
    else record h { appending = later })

-- What follows the append of the oldest batch: whatever waits by then is dropped when it succeeded.
unfoldable pub settle : Bool → Handler → Handler
settle appended h = settle_first appended h.appending h
