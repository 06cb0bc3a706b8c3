-- ===== src/Server/Notifications.antt =====
-- The classes `NotificationWebSocketServer` and `NotificationService` of server/websocket.ts. A socket
-- has a name; what was sent to it stands as its inbox. The id that storage gives a saved notification
-- is an argument, none where storage fails; JSON of metadata and `toFixed` are texts that are given.
pub mod Delivery
mod Tests
use Prim.Native.String
use kpm_cursor.Base.{
  ℕ, String, Bool, true, false, not, ◌||◌, Option, none, some, List, [], ◌∷◌, ◌++◌, str_eq, ◌==◌,
  if◌then◌else◌, get_or, filter, any,
}
use kpm_cursor.Base.Dict
use kpm_cursor.Base.Dict.{Dict}
use kpm_cursor.Base.Text.{is_empty}

pub data NotificationType : Type 0 where
  info success warning error : NotificationType

pub record WsNotification : Type 0 where
  pub kind : NotificationType
  pub title : String
  pub message : String
  pub id : Option ℕ

pub record WebSocketClient : Type 0 where
  pub is_open : Bool
  pub user_id : Option ℕ
  pub company_id : Option String
  pub subscriptions : List String
  pub inbox : List WsNotification

pub data ClientMessage : Type 0 where
  authenticate : Option ℕ → Option String → ClientMessage
  subscribe unsubscribe : Option String → ClientMessage
  unknown : ClientMessage

-- `if (x) … = x` for a number and for a text
abbrev pub number_or : Option ℕ → Option ℕ → Option ℕ
number_or none old = old
number_or (some n) old = if n == 0 then old else some n

abbrev pub text_or : Option String → Option String → Option String
text_or none old = old
text_or (some s) old = if is_empty s then old else some s

abbrev pub has_text : String → List String → Bool
has_text s texts = any (λ t. str_eq t s) texts

unfoldable pub handle_message : ClientMessage → WebSocketClient → WebSocketClient
handle_message (authenticate user_id company_id) c = record c {
  user_id = number_or user_id c.user_id;
  company_id = text_or company_id c.company_id;
}
handle_message (subscribe channel) c =
    let wanted = get_or channel "" in
    if is_empty wanted || has_text wanted c.subscriptions
    then c
    else record c { subscriptions = c.subscriptions ++ wanted ∷ [] }
handle_message (unsubscribe channel) c = record c {
  subscriptions = filter (λ s. not (str_eq s (get_or channel ""))) c.subscriptions;
}
handle_message unknown c = c

abbrev pub send_to_client : WsNotification → WebSocketClient → WebSocketClient
send_to_client n c = if c.is_open then record c { inbox = c.inbox ++ n ∷ [] } else c

abbrev pub Clients : Type 0
Clients = Dict WebSocketClient

abbrev welcome : WsNotification
welcome = record {
  kind = info;
  title = "Connected";
  message = "Real-time notifications enabled";
  id = none;
}

unfoldable pub connect : String → Clients → Clients
connect socket clients =
    Dict.set socket
      (send_to_client welcome (record {
        is_open = true;
        user_id = none;
        company_id = none;
        subscriptions = [];
        inbox = [];
      }))
      clients

-- The handler of `close`, and of `error`.
unfoldable pub close : String → Clients → Clients
close socket clients = Dict.delete socket clients

abbrev pub received_by : ClientMessage → Option WebSocketClient → String → Clients → Clients
received_by message none socket clients = clients
received_by message (some c) socket clients = Dict.set socket (handle_message message c) clients

unfoldable pub receive : String → ClientMessage → Clients → Clients
receive socket message clients = received_by message (Dict.get socket clients) socket clients

-- `clients.forEach` with its test
abbrev pub send_if : (WebSocketClient → Bool) → WsNotification → Clients → Clients
send_if chosen n clients = Dict.map_values (λ c. if chosen c then send_to_client n c else c) clients

unfoldable pub broadcast : WsNotification → Clients → Clients
broadcast n clients = Dict.map_values (send_to_client n) clients

abbrev pub is_user : ℕ → WebSocketClient → Bool
is_user id c = elim c.user_id [ none ↦ false | some u ↦ u == id ]

abbrev pub is_of_company : String → WebSocketClient → Bool
is_of_company id c = elim c.company_id [ none ↦ false | some k ↦ str_eq k id ]

unfoldable pub send_to_user : ℕ → WsNotification → Clients → Clients
send_to_user id n clients = send_if (is_user id) n clients

unfoldable pub send_to_company : String → WsNotification → Clients → Clients
send_to_company id n clients = send_if (is_of_company id) n clients

unfoldable pub send_to_channel : String → WsNotification → Clients → Clients
send_to_channel channel n clients = send_if (λ c. has_text channel c.subscriptions) n clients

-- The argument of `createNotification`
pub record NewNotification : Type 0 where
  pub kind : NotificationType
  pub title : String
  pub message : String
  pub user_id : Option ℕ
  pub company_id : Option String
  pub action_url : Option String
  pub metadata : Option String

pub record SavedNotification : Type 0 where
  pub id : ℕ
  pub content : NewNotification
  pub is_read : Bool

pub data Severity : Type 0 where
  low medium high critical : Severity

pub record SavedAlert : Type 0 where
  pub alert_type : NotificationType
  pub message : String
  pub severity : Severity
  pub acknowledged : Bool

-- `server` is none until `initialize`.
pub record NotificationService : Type 0 where
  pub server : Option Clients
  pub notifications : List SavedNotification
  pub alerts : List SavedAlert

abbrev pub ws_notification : ℕ → NewNotification → WsNotification
ws_notification id n = record { kind = n.kind; title = n.title; message = n.message; id = some id }

-- A user before a company, and everybody without either; 0 and the empty text count as missing.
unfoldable pub route : NewNotification → WsNotification → Clients → Clients
unfolding send_to_user send_to_company broadcast
route n w clients =
    if not (get_or n.user_id 0 == 0)
    then send_to_user (get_or n.user_id 0) w clients
    else if not (is_empty (get_or n.company_id ""))
    then send_to_company (get_or n.company_id "") w clients
    else broadcast w clients

-- The flag of the result is whether storage saved; an error is thrown on.
unfoldable pub create_notification :
    Option ℕ → NewNotification → NotificationService → NotificationService × Bool
unfolding route
create_notification none n s = (s, false)
create_notification (some id) n s = (
  record s {
    notifications = s.notifications ++ record { id = id; content = n; is_read = false } ∷ [];
    server = elim s.server [
      | none ↦ none
      | some clients ↦ some (route n (ws_notification id n) clients)
    ];
  },
  true,
)

abbrev pub plain : NotificationType → String → String → NewNotification
plain kind title message = record {
  kind = kind;
  title = title;
  message = message;
  user_id = none;
  company_id = none;
  action_url = none;
  metadata = none;
}

-- The alert is saved after the notification, if that was.
unfoldable pub send_system_alert :
    Option ℕ
    → NotificationType
    → String
    → String
    → Severity
    → NotificationService
    → NotificationService
unfolding create_notification
send_system_alert id kind title message severity s =
    let (later, saved) = create_notification id (plain kind title message) s in
    if saved
    then record later {
      alerts =
          later.alerts
          ++ record {
            alert_type = kind;
            message = message;
            severity = severity;
            acknowledged = false;
          }
            ∷ [];
    }
    else later

unfoldable pub event_notification : String → String → String → NewNotification
event_notification event_type company_id metadata =
    record (plain success "New Event Processed"
      (String.◌++◌ event_type " event successfully committed to blockchain")) {
        company_id = some company_id;
        action_url = some "/company-portal?tab=events";
        metadata = some metadata;
      }

unfoldable pub low_balance_alert : String → String → String → NewNotification
low_balance_alert company_id balance threshold =
    record (plain warning "Low Wallet Balance" (
      String.◌++◌ "Your wallet balance (" (
        String.◌++◌ balance
          (String.◌++◌ " KAS) is below the threshold (" (String.◌++◌ threshold " KAS)"))))) {
            company_id = some company_id;
            action_url = some "/company-portal?tab=overview";
          }

unfoldable pub transaction_failure : String → String → Option String → NewNotification
transaction_failure company_id message metadata =
    record (plain error "Transaction Failed"
      (String.◌++◌ "Failed to commit event to blockchain. " message)) {
        company_id = some company_id;
        action_url = some "/company-portal?tab=events";
        metadata = metadata;
      }

unfoldable pub send_company_notification :
    Option ℕ → String → NewNotification → NotificationService → NotificationService × Bool
unfolding create_notification
send_company_notification id company_id n s =
    create_notification id (record n { company_id = some company_id }) s

-- `changes.join(', ')`
abbrev pub join_changes : List String → String
join_changes [] = ""
join_changes (c ∷ []) = c
join_changes (c ∷ (d ∷ cs)) = String.◌++◌ c (String.◌++◌ ", " (join_changes (d ∷ cs)))

unfoldable pub policy_update : String → String → List String → NewNotification
policy_update company_id updated_by changes =
    record (plain info "Policy Updated" (
      String.◌++◌ "Company policy has been updated by "
        (String.◌++◌ updated_by (String.◌++◌ ". Changes: " (join_changes changes))))) {
          company_id = some company_id;
          action_url = some "/company-portal?tab=policy";
        }
