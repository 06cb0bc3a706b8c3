-- ===== src/Server/Notifications/Tests.antt =====
-- Concrete clients (server/websocket.ts): runs of the model, and the theorems at inputs that meet their
-- hypotheses.
use mathlib.Core.Option
use kpm_cursor.Base.{◌≡◌, refl, true, none, some, [], ◌∷◌, length}
use kpm_cursor.Server.Notifications.Delivery.{delivered, route-delivered}
use kpm_cursor.Server.Notifications.{
  WsNotification, WebSocketClient, handle_message, Clients, NewNotification, NotificationService,
  ws_notification, route, plain, send_system_alert, low_balance_alert, policy_update, info, error,
  subscribe, critical,
}
use kpm_cursor.Base.Dict

abbrev fresh : WebSocketClient
fresh = record { is_open = true; user_id = none; company_id = none; subscriptions = []; inbox = [] }

abbrev clients : Clients
clients = ("a", fresh) ∷ ("b", record fresh { company_id = some "c7" }) ∷ []

abbrev for_user : NewNotification
for_user = record (plain info "Hello" "Only for 5") { user_id = some 5 }

abbrev sent : WsNotification
sent = ws_notification 9 for_user

route-delivered_example :
    Dict.get "a" (route for_user sent clients)
    ≡ Option.map (delivered for_user sent) (Dict.get "a" clients)
route-delivered_example = route-delivered for_user sent clients "a"

abbrev service : NotificationService
service = record { server = some clients; notifications = []; alerts = [] }

alert_saved : length (send_system_alert (some 1) error "Down" "x" critical service).alerts ≡ 1
unfolding send_system_alert
alert_saved = refl

alert_lost : length (send_system_alert none error "Down" "x" critical service).alerts ≡ 0
unfolding send_system_alert
alert_lost = refl

subscribed_once :
    (handle_message
      (subscribe (some "ch"))
      (handle_message (subscribe (some "ch")) fresh)).subscriptions
    ≡ "ch" ∷ []
unfolding handle_message
subscribed_once = refl

low_balance_company : (low_balance_alert "c7" "0.5" "1").company_id ≡ some "c7"
unfolding low_balance_alert
low_balance_company = refl

policy_message :
    (policy_update "c7" "al" ("fees" ∷ "limits" ∷ [])).message
    ≡ "Company policy has been updated by al. Changes: fees, limits"
unfolding policy_update
policy_message = refl
