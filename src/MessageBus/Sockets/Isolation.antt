-- ===== src/MessageBus/Sockets/Isolation.antt =====
-- Who receives the events of a company (message_bus/src/services/websocket-service.ts).
use kpm_cursor.Base.Text.{is_empty}
use kpm_cursor.MessageBus.Auth.{Payload}
use kpm_cursor.Base.{
  ℕ, String, ◌≡◌, refl, sym, ap, ◌∙◌, ◌⊎◌, inl, inr, Bool, true, false, not, ◌&&◌, Option, none,
  some, List, [], ◌∷◌, arith, eq_iff, str_eq, ◌==◌, if◌then◌else◌, Bool-cases, ==_iff,
}
use kpm_cursor.MessageBus.Sockets.{
  Room, same_room, Rooms, IsRooms, AuthenticatedSocket, WebSocketService, socket_of,
  handshake_token, includes, emit_transaction_confirmation, emit_supply_chain_event,
  emit_dashboard_update, register_socket, handshake, join_companies, joined, connection, disconnect,
  join_dashboard, subscribe_dashboard, join_transaction, subscribe_transaction, shutdown, received,
  company_room, dashboard_room, transaction_room,
}
use kpm_cursor.Base.Dict
use kpm_cursor.Base.Dict.{Dict}

-- What happens to the service. The id of a socket that shakes hands is new, as socket.io's ids are.
pub data Happens {R : Type 0} (io : Rooms R) (verify : String → Option Payload)
    : WebSocketService R → WebSocketService R → Type 0 where
  shakes_hands :
      (w : WebSocketService R) (id : String) (auth_token authorization : Option String)
      → Dict.get id w.authenticated_sockets ≡ none
      → Happens io verify w (handshake io verify id auth_token authorization w)
  connects : (w : WebSocketService R) (id : String) → Happens io verify w (connection io id w)
  disconnects : (w : WebSocketService R) (id : String) → Happens io verify w (disconnect io id w)
  asks_dashboard :
      (w : WebSocketService R) (id : String) (company_id : ℕ)
      → Happens io verify w (subscribe_dashboard io id company_id w)
  asks_transaction :
      (w : WebSocketService R) (id hash : String)
      → Happens io verify w (subscribe_transaction io id hash w)
  shuts_down : (w : WebSocketService R) → Happens io verify w (shutdown io w)

-- The service after any history.
pub data IsReachable {R : Type 0} (io : Rooms R) (verify : String → Option Payload)
    : WebSocketService R → Type 0 where
  initialized : IsReachable io verify (record { authenticated_sockets = []; rooms = io.nobody })
  continued :
      (w later : WebSocketService R)
      → IsReachable io verify w
      → Happens io verify w later
      → IsReachable io verify later

abbrev lists_company : ℕ → Option AuthenticatedSocket → Bool
lists_company company_id none = false
lists_company company_id (some a) = includes company_id a.company_ids

-- The socket is authenticated, and its token lists the company.
abbrev pub serves : {R : Type 0} → WebSocketService R → String → ℕ → Bool
serves w id company_id = lists_company company_id (Dict.get id w.authenticated_sockets)

-- Whether a room is one of a company's two.
abbrev is_of : ℕ → Room → Bool
is_of company_id (company_room id) = id == company_id
is_of company_id (dashboard_room id) = id == company_id
is_of company_id (transaction_room hash) = false

own_company :
    (c company_id : ℕ) (room : Room)
    → is_of company_id room ≡ true
    → same_room room (company_room c) ≡ true
    → (c == company_id) ≡ true
own_company c company_id (company_room id) of_it same = ground (arith, of_it, same)
own_company c company_id (dashboard_room id) of_it same = ground (arith, same)
own_company c company_id (transaction_room hash) of_it same = ground (arith, same)

same_room-is_of :
    (company_id : ℕ) (room q : Room)
    → same_room room q ≡ true
    → is_of company_id room ≡ is_of company_id q
same_room-is_of company_id (company_room a) (company_room b) same =
    ap (λ i. i == company_id) ((==_iff a b).0 same)
same_room-is_of company_id (dashboard_room a) (dashboard_room b) same =
    ap (λ i. i == company_id) ((==_iff a b).0 same)
same_room-is_of company_id (transaction_room a) (transaction_room b) same = refl
same_room-is_of company_id (company_room a) (dashboard_room b) same = ground (arith, same)
same_room-is_of company_id (company_room a) (transaction_room b) same = ground (arith, same)
same_room-is_of company_id (dashboard_room a) (company_room b) same = ground (arith, same)
same_room-is_of company_id (dashboard_room a) (transaction_room b) same = ground (arith, same)
same_room-is_of company_id (transaction_room a) (company_room b) same = ground (arith, same)
same_room-is_of company_id (transaction_room a) (dashboard_room b) same = ground (arith, same)

module _ {R : Type 0} (io : Rooms R) (laws : IsRooms io) where
  -- Whoever is in a room of a company serves that company.
  IsIsolated : WebSocketService R → Type 0
  IsIsolated w =
      (id : String) (company_id : ℕ) (room : Room)
      → is_of company_id room ≡ true
      → io.is_in w.rooms id room ≡ true
      → serves w id company_id ≡ true

  in_join_companies :
      (id : String) (companies : List ℕ) (rooms : R) (other : String) (room : Room) (company_id : ℕ)
      → is_of company_id room ≡ true
      → io.is_in (join_companies io id companies rooms) other room ≡ true
      → (io.is_in rooms other room ≡ true)
        ⊎ ((str_eq other id ≡ true) × (includes company_id companies ≡ true))
  in_join_companies id [] rooms other room company_id of_it there = inl there
  in_join_companies id (c ∷ companies) rooms other room company_id of_it there =
      elim (in_join_companies id companies (io.join_room id (company_room c) rooms) other room
        company_id of_it there) [
          | inr later ↦ inr (later.0, ground (arith, later.1))
          | inl now ↦ elim (Bool-cases (io.is_in rooms other room)) [
            | inl before ↦ inl before
            | inr absent ↦
                let entered : (str_eq other id && same_room room (company_room c)) ≡ true =
                  rw (laws.in_join id (company_room c) rooms other room, absent) at now in
                inr (
                  ground (arith, entered),
                  ground (arith, entered, own_company c company_id room of_it),
                )
          ]
        ]

  connection-IsIsolated :
      (id : String) (found : Option AuthenticatedSocket) (w : WebSocketService R)
      → Dict.get id w.authenticated_sockets ≡ found
      → IsIsolated w
      → IsIsolated (joined io id found w)
  unfolding IsIsolated
  connection-IsIsolated id none w e h = h
  connection-IsIsolated id (some a) w e h = λ other company_id room of_it there.
      elim (in_join_companies id a.company_ids w.rooms other room company_id of_it there) [
        | inl before ↦ h other company_id room of_it before
        | inr (same, listed) ↦
            ap (λ i. lists_company company_id (Dict.get i w.authenticated_sockets))
              ((eq_iff other id).0 same)
            ∙ ap (lists_company company_id) e
            ∙ listed
      ]

  -- A room that is joined, if it is of a company, is one that the socket may be in.
  join_room-IsIsolated :
      (id : String) (q : Room) (w : WebSocketService R)
      → ((company_id : ℕ) → is_of company_id q ≡ true → serves w id company_id ≡ true)
      → IsIsolated w
      → IsIsolated (record w { rooms = io.join_room id q w.rooms })
  unfolding IsIsolated
  join_room-IsIsolated id q w allowed h = λ other company_id room of_it there.
      elim (Bool-cases (io.is_in w.rooms other room)) [
        | inl before ↦ h other company_id room of_it before
        | inr absent ↦
            let entered : (str_eq other id && same_room room q) ≡ true =
              rw (laws.in_join id q w.rooms other room, absent) at there in
            ap (λ i. serves w i company_id) ((eq_iff other id).0 (ground (arith, entered)))
            ∙ allowed company_id
                (sym (same_room-is_of company_id room q (ground (arith, entered))) ∙ of_it)
      ]

  dashboard-IsIsolated :
      (id : String) (company_id : ℕ) (found : Option AuthenticatedSocket) (w : WebSocketService R)
      → Dict.get id w.authenticated_sockets ≡ found
      → IsIsolated w
      → IsIsolated (join_dashboard io id company_id found w)
  dashboard-IsIsolated id company_id none w e h = h
  dashboard-IsIsolated id company_id (some a) w e h =
      elim (Bool-cases (not (company_id == 0) && includes company_id a.company_ids)) [
        | inl mine ↦ rw mine (
            join_room-IsIsolated id (dashboard_room company_id) w
              (λ c of_it.
                ap (lists_company c) e
                ∙ ap (λ i. includes i a.company_ids) (sym ((==_iff company_id c).0 of_it))
                ∙ ground (arith, mine))
              h)
        | inr other ↦ rw other h
      ]

  transaction-IsIsolated :
      (id hash : String) (found : Option AuthenticatedSocket) (w : WebSocketService R)
      → IsIsolated w
      → IsIsolated (join_transaction io id hash found w)
  transaction-IsIsolated id hash none w h = h
  transaction-IsIsolated id hash (some a) w h = elim (Bool-cases (is_empty hash)) [
    | inl e ↦ rw e h
    | inr e ↦
        rw e
          (join_room-IsIsolated id (transaction_room hash) w (λ c of_it. ground (arith, of_it)) h)
  ]

  register-IsIsolated :
      (id : String) (found : Option Payload) (w : WebSocketService R)
      → Dict.get id w.authenticated_sockets ≡ none
      → IsIsolated w
      → IsIsolated (register_socket io id found w)
  unfolding IsIsolated
  register-IsIsolated id none w fresh h = h
  register-IsIsolated id (some p) w fresh h = λ other company_id room of_it there.
      let before : serves w other company_id ≡ true = h other company_id room of_it there in
      elim (Bool-cases (str_eq id other)) [
        | inl same ↦ ground (
          arith,
          ap (λ i. lists_company company_id (Dict.get i w.authenticated_sockets))
                (sym ((eq_iff id other).0 same))
              ∙ ap (lists_company company_id) fresh,
          before,
        )
        | inr apart ↦ rw (Dict.get-set id other (socket_of p) w.authenticated_sockets, apart) before
      ]

  Happens-IsIsolated :
      (verify : String → Option Payload) (w later : WebSocketService R)
      → Happens io verify w later
      → IsIsolated w
      → IsIsolated later
  unfolding IsIsolated handshake connection disconnect subscribe_dashboard subscribe_transaction
      shutdown
  Happens-IsIsolated verify w _ (shakes_hands _ id auth_token authorization fresh) h =
      elim (Bool-cases (is_empty (handshake_token auth_token authorization))) [
        | inl e ↦ rw e h
        | inr e ↦
            rw e
              (register-IsIsolated id (verify (handshake_token auth_token authorization)) w fresh h)
      ]
  Happens-IsIsolated verify w _ (connects _ id) h = connection-IsIsolated id _ w refl h
  Happens-IsIsolated verify w _ (disconnects _ id) h = λ other company_id room of_it there.
      let stayed : (io.is_in w.rooms other room && not (str_eq other id)) ≡ true =
        rw (laws.in_leave id w.rooms other room) at there in
      let before : serves w other company_id ≡ true =
        h other company_id room of_it (ground (arith, stayed)) in
      let apart : str_eq id other ≡ false =
        ground (arith, stayed, eq_iff id other, eq_iff other id) in
      rw (Dict.get-delete id other w.authenticated_sockets, apart) before
  Happens-IsIsolated verify w _ (asks_dashboard _ id company_id) h =
      dashboard-IsIsolated id company_id _ w refl h
  Happens-IsIsolated verify w _ (asks_transaction _ id hash) h =
      transaction-IsIsolated id hash _ w h
  Happens-IsIsolated verify w _ (shuts_down _) h =
      λ other company_id room of_it there. ground (arith, sym (laws.in_nobody other room) ∙ there)

  reachable-IsIsolated :
      (verify : String → Option Payload) (w : WebSocketService R)
      → IsReachable io verify w
      → IsIsolated w
  unfolding IsIsolated
  reachable-IsIsolated verify w initialized =
      λ other company_id room of_it there. ground (arith, sym (laws.in_nobody other room) ∙ there)
  reachable-IsIsolated verify w (continued before _ reach step) =
      Happens-IsIsolated verify before w step (reachable-IsIsolated verify before reach)

-- Whatever has happened to the service, a socket whose token does not list a company receives neither
-- the company's supply-chain events nor its dashboard updates, and of the confirmation of one of its
-- transactions only what every subscriber of the transaction receives.
pub received-stranger :
    {R : Type 0} (io : Rooms R) (verify : String → Option Payload) (w : WebSocketService R)
    (id : String) (company_id : ℕ) (hash : String)
    → IsRooms io
    → IsReachable io verify w
    → serves w id company_id ≡ false
    → (received io w id (emit_supply_chain_event company_id) ≡ [])
      × (received io w id (emit_dashboard_update company_id) ≡ [])
      × (received io w id (emit_transaction_confirmation company_id hash) ≡ (
          if io.is_in w.rooms id (transaction_room hash)
          then "transaction_confirmation" ∷ []
          else []))
unfolding IsIsolated emit_supply_chain_event emit_dashboard_update emit_transaction_confirmation
received-stranger io verify w id company_id hash laws reach stranger =
    let isolated : IsIsolated io laws w = reachable-IsIsolated io laws verify w reach in
    let same : (company_id == company_id) ≡ true = ground arith in
    let no_events : io.is_in w.rooms id (company_room company_id) ≡ false =
      ground (arith, isolated id company_id (company_room company_id) same, stranger) in
    let no_updates : io.is_in w.rooms id (dashboard_room company_id) ≡ false =
      ground (arith, isolated id company_id (dashboard_room company_id) same, stranger) in
    (rw no_events, rw no_updates, rw no_events)
