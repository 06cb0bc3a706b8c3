-- ===== src/MessageBus/Sockets/Tests.antt =====
-- Concrete sockets (message_bus/src/services/websocket-service.ts), with a list of pairs for socket.io's
-- rooms.
use kpm_cursor.Base.{
  String, ◌≡◌, refl, Bool, false, not, ◌&&◌, Option, none, some, List, [], ◌∷◌, arith, eq_iff,
  str_eq, if◌then◌else◌, filter, any,
}
use kpm_cursor.MessageBus.Sockets.Isolation.{
  IsReachable, serves, received-stranger, shakes_hands, connects, asks_transaction, initialized,
  continued,
}
use kpm_cursor.MessageBus.Sockets.{
  Room, same_room, Rooms, IsRooms, WebSocketService, emit_transaction_confirmation,
  emit_supply_chain_event, emit_dashboard_update, handshake, connection, disconnect,
  subscribe_transaction, received, get_connection_stats, transaction_room,
}
use kpm_cursor.MessageBus.Auth.{Payload}

abbrev is_pair : String → Room → String × Room → Bool
is_pair s r (t, q) = str_eq s t && same_room r q

abbrev pairs : Rooms (List (String × Room))
pairs = record {
  nobody = [];
  join_room = λ s q rooms. (s, q) ∷ rooms;
  leave_rooms = λ s rooms. filter (λ p. not (str_eq p.0 s)) rooms;
  is_in = λ rooms s r. any (is_pair s r) rooms;
}

pairs-in_leave :
    (s : String) (rooms : List (String × Room)) (t : String) (r : Room)
    → any (is_pair t r) (filter (λ p. not (str_eq p.0 s)) rooms)
      ≡ any (is_pair t r) rooms && not (str_eq t s)
pairs-in_leave s [] t r = refl
pairs-in_leave s ((u, q) ∷ rooms) t r =
    ground (arith, eq_iff t u, eq_iff u s, eq_iff t s, pairs-in_leave s rooms t r)

pairs-IsRooms : IsRooms pairs
pairs-IsRooms = record {
  in_nobody = λ s r. refl;
  in_join = λ s q rooms t r. ground arith;
  in_leave = pairs-in_leave;
}

-- Every token is of a member of company 7.
abbrev verify : String → Option Payload
verify token = some (record {
  user_id = 1;
  email = "al@x.io";
  role = "user";
  companies = record { id = 7; name = "Acme"; role = "viewer" } ∷ [];
})

abbrev start : WebSocketService (List (String × Room))
start = record { authenticated_sockets = []; rooms = [] }

abbrev greeted : WebSocketService (List (String × Room))
greeted = handshake pairs verify "s1" none (some "Bearer t") start

abbrev linked : WebSocketService (List (String × Room))
linked = connection pairs "s1" greeted

-- The member of company 7 follows a transaction, of whatever company.
abbrev following : WebSocketService (List (String × Room))
following = subscribe_transaction pairs "s1" "h" linked

following-IsReachable : IsReachable pairs verify following
following-IsReachable =
    continued linked following
      (continued greeted linked
        (continued start greeted initialized (shakes_hands start "s1" none (some "Bearer t") refl))
        (connects greeted "s1"))
      (asks_transaction linked "s1" "h")

following-stranger : serves following "s1" 8 ≡ false
unfolding handshake connection subscribe_transaction
following-stranger = refl

received-stranger_example :
    (received pairs following "s1" (emit_supply_chain_event 8) ≡ [])
    × (received pairs following "s1" (emit_dashboard_update 8) ≡ [])
    × (received pairs following "s1" (emit_transaction_confirmation 8 "h") ≡ (
        if pairs.is_in following.rooms "s1" (transaction_room "h")
        then "transaction_confirmation" ∷ []
        else []))
received-stranger_example =
    received-stranger pairs verify following "s1" 8 "h" pairs-IsRooms following-IsReachable
      following-stranger

-- The confirmation of a transaction of company 8 reaches the member of company 7.
confirmation_of_others :
    received pairs following "s1" (emit_transaction_confirmation 8 "h")
    ≡ "transaction_confirmation" ∷ []
unfolding handshake connection subscribe_transaction emit_transaction_confirmation
confirmation_of_others = refl

own_events : received pairs following "s1" (emit_supply_chain_event 7) ≡ "supply_chain_event" ∷ []
unfolding handshake connection subscribe_transaction emit_supply_chain_event
own_events = refl

after_disconnection :
    received pairs (disconnect pairs "s1" following) "s1" (emit_supply_chain_event 7) ≡ []
unfolding handshake connection subscribe_transaction disconnect emit_supply_chain_event
after_disconnection = refl

authenticated_count : (get_connection_stats 3 following).authenticated ≡ 1
unfolding handshake connection subscribe_transaction get_connection_stats
authenticated_count = refl
