-- ===== src/MessageBus/Sockets.antt =====
-- The class `WebSocketService` of message_bus/src/services/websocket-service.ts. The rooms of socket.io
-- are the interface `Rooms`; the texts `company_${id}`, `dashboard_${id}` and `transaction_${hash}`, of
-- which no two are the same, are the three constructors of `Room`. A socket that disconnects leaves its
-- rooms, as socket.io documents.
pub mod Isolation
pub mod Counts
mod Tests
use kpm_cursor.Base.{
  ℕ, suc, String, ◌≡◌, Bool, false, not, ◌&&◌, ◌||◌, Option, none, some, List, [], ◌∷◌, map, str_eq,
  ◌==◌, if◌then◌else◌, get_or, length, any,
}
use kpm_cursor.Base.Dict
use kpm_cursor.Base.Dict.{Dict}
use kpm_cursor.Base.Text.{is_empty}
use kpm_cursor.Gateway.{without_bearer}
use kpm_cursor.MessageBus.Auth.{Membership, Payload}

pub data Room : Type 0 where
  company_room dashboard_room : ℕ → Room
  transaction_room : String → Room

abbrev pub same_room : Room → Room → Bool
same_room (company_room a) (company_room b) = a == b
same_room (dashboard_room a) (dashboard_room b) = a == b
same_room (transaction_room a) (transaction_room b) = str_eq a b
same_room _ _ = false

-- The rooms of socket.io: a socket joins a room, leaves all of them, or is in one.
pub record Rooms (R : Type 0) : Type 0 where
  pub nobody : R
  pub join_room : String → Room → R → R
  pub leave_rooms : String → R → R
  pub is_in : R → String → Room → Bool

pub record IsRooms {R : Type 0} (io : Rooms R) : Type 0 where
  pub in_nobody : (s : String) (r : Room) → io.is_in io.nobody s r ≡ false
  pub in_join :
      (s : String) (q : Room) (rooms : R) (t : String) (r : Room)
      → io.is_in (io.join_room s q rooms) t r ≡ io.is_in rooms t r || (str_eq t s && same_room r q)
  pub in_leave :
      (s : String) (rooms : R) (t : String) (r : Room)
      → io.is_in (io.leave_rooms s rooms) t r ≡ io.is_in rooms t r && not (str_eq t s)

pub record AuthenticatedSocket : Type 0 where
  pub user_id : ℕ
  pub email : String
  pub company_ids : List ℕ
  pub role : String

pub record WebSocketService (R : Type 0) : Type 0 where
  pub authenticated_sockets : Dict AuthenticatedSocket
  pub rooms : R

abbrev pub socket_of : Payload → AuthenticatedSocket
socket_of p = record {
  user_id = p.user_id;
  email = p.email;
  company_ids = map (λ m. m.id) p.companies;
  role = p.role;
}

-- `handshake.auth.token || handshake.headers.authorization?.replace('Bearer ', '')`
abbrev pub handshake_token : Option String → Option String → String
handshake_token auth_token authorization =
    if is_empty (get_or auth_token "")
    then without_bearer (get_or authorization "")
    else get_or auth_token ""

abbrev pub includes : ℕ → List ℕ → Bool
includes id ids = any (λ i. i == id) ids

-- What a call emits: rooms, each with the name of the event.
abbrev pub Emission : Type 0
Emission = List (Room × String)

unfoldable pub emit_transaction_confirmation : ℕ → String → Emission
emit_transaction_confirmation company_id hash =
    (company_room company_id, "transaction_update")
    ∷ (transaction_room hash, "transaction_confirmation")
    ∷ []

unfoldable pub emit_supply_chain_event : ℕ → Emission
emit_supply_chain_event company_id = (company_room company_id, "supply_chain_event") ∷ []

unfoldable pub emit_dashboard_update : ℕ → Emission
emit_dashboard_update company_id = (dashboard_room company_id, "dashboard_update") ∷ []

module _ {R : Type 0} (io : Rooms R) where
  abbrev pub register_socket : String → Option Payload → WebSocketService R → WebSocketService R
  register_socket id none w = w
  register_socket id (some p) w = record w {
    authenticated_sockets = Dict.set id (socket_of p) w.authenticated_sockets;
  }

  -- The middleware of the handshake; `verify` is the JWT library's, under the service's secret.
  unfoldable pub handshake :
      (String → Option Payload)
      → String
      → Option String
      → Option String
      → WebSocketService R
      → WebSocketService R
  handshake verify id auth_token authorization w =
      let token = handshake_token auth_token authorization in
      if is_empty token then w else register_socket id (verify token) w

  abbrev pub join_companies : String → List ℕ → R → R
  join_companies id [] rooms = rooms
  join_companies id (company ∷ companies) rooms =
      join_companies id companies (io.join_room id (company_room company) rooms)

  abbrev pub joined : String → Option AuthenticatedSocket → WebSocketService R → WebSocketService R
  joined id none w = w
  joined id (some a) w = record w { rooms = join_companies id a.company_ids w.rooms }

  unfoldable pub connection : String → WebSocketService R → WebSocketService R
  connection id w = joined id (Dict.get id w.authenticated_sockets) w

  unfoldable pub disconnect : String → WebSocketService R → WebSocketService R
  disconnect id w = record {
    authenticated_sockets = Dict.delete id w.authenticated_sockets;
    rooms = io.leave_rooms id w.rooms;
  }

  abbrev pub join_dashboard :
      String → ℕ → Option AuthenticatedSocket → WebSocketService R → WebSocketService R
  join_dashboard id company_id none w = w
  join_dashboard id company_id (some a) w =
      if not (company_id == 0) && includes company_id a.company_ids
      then record w { rooms = io.join_room id (dashboard_room company_id) w.rooms }
      else w

  -- An undefined company counts as 0.
  unfoldable pub subscribe_dashboard : String → ℕ → WebSocketService R → WebSocketService R
  subscribe_dashboard id company_id w =
      join_dashboard id company_id (Dict.get id w.authenticated_sockets) w

  abbrev pub join_transaction :
      String → String → Option AuthenticatedSocket → WebSocketService R → WebSocketService R
  join_transaction id hash none w = w
  join_transaction id hash (some a) w =
      if is_empty hash
      then w
      else record w { rooms = io.join_room id (transaction_room hash) w.rooms }

  unfoldable pub subscribe_transaction : String → String → WebSocketService R → WebSocketService R
  subscribe_transaction id hash w = join_transaction id hash (Dict.get id w.authenticated_sockets) w

  unfoldable pub shutdown : WebSocketService R → WebSocketService R
  shutdown w = record { authenticated_sockets = []; rooms = io.nobody }

  -- The events of an emission that reach a socket.
  abbrev pub received : WebSocketService R → String → Emission → List String
  received w id [] = []
  received w id ((room, event) ∷ emission) =
      if io.is_in w.rooms id room then event ∷ received w id emission else received w id emission

-- `companyConnections[companyId] = (companyConnections[companyId] || 0) + 1`
abbrev pub bump : ℕ → List (ℕ × ℕ) → List (ℕ × ℕ)
bump id [] = (id, 1) ∷ []
bump id ((k, n) ∷ counts) = if k == id then (k, suc n) ∷ counts else (k, n) ∷ bump id counts

abbrev pub bump_all : List ℕ → List (ℕ × ℕ) → List (ℕ × ℕ)
bump_all [] counts = counts
bump_all (id ∷ ids) counts = bump_all ids (bump id counts)

abbrev pub count_sockets : Dict AuthenticatedSocket → List (ℕ × ℕ) → List (ℕ × ℕ)
count_sockets [] counts = counts
count_sockets ((id, a) ∷ sockets) counts = count_sockets sockets (bump_all a.company_ids counts)

unfoldable pub get_connections_by_company : {R : Type 0} → WebSocketService R → List (ℕ × ℕ)
get_connections_by_company w = count_sockets w.authenticated_sockets []

pub record ConnectionStats : Type 0 where
  pub connected : ℕ
  pub authenticated : ℕ
  pub connections_by_company : List (ℕ × ℕ)

-- `connected` is the count of the engine.
unfoldable pub get_connection_stats : {R : Type 0} → ℕ → WebSocketService R → ConnectionStats
unfolding get_connections_by_company
get_connection_stats clients_count w = record {
  connected = clients_count;
  authenticated = length w.authenticated_sockets;
  connections_by_company = get_connections_by_company w;
}
