-- ===== src/Server/Notifications/Delivery.antt =====
-- Whom a notification of server/websocket.ts reaches.
use mathlib.Core.Option
use kpm_cursor.Base.{
  ℕ, String, ◌≡◌, refl, ap, ◌∙◌, inl, inr, Bool, true, false, ◌&&◌, ◌||◌, Option, none, some, [],
  ◌∷◌, ◌++◌, arith, ◌==◌, if◌then◌else◌, Bool-cases, get_or,
}
use kpm_cursor.Server.Notifications.{
  WsNotification, WebSocketClient, handle_message, send_to_client, Clients, received_by, receive,
  broadcast, is_user, is_of_company, send_to_user, send_to_company, NewNotification, route,
  authenticate,
}
use kpm_cursor.Base.Dict
use kpm_cursor.Base.Dict.{Dict}
use kpm_cursor.Base.Text.{is_empty}

-- Whom a notification is meant for: its user, or without one its company, or without either anybody.
abbrev pub is_addressed : NewNotification → WebSocketClient → Bool
is_addressed n c =
    if get_or n.user_id 0 == 0
    then is_empty (get_or n.company_id "") || is_of_company (get_or n.company_id "") c
    else is_user (get_or n.user_id 0) c

abbrev pub delivered : NewNotification → WsNotification → WebSocketClient → WebSocketClient
delivered n w c =
    if c.is_open && is_addressed n c then record c { inbox = c.inbox ++ w ∷ [] } else c

map-delivered :
    (f g : WebSocketClient → WebSocketClient) (found : Option WebSocketClient)
    → ((c : WebSocketClient) → f c ≡ g c)
    → Option.map f found ≡ Option.map g found
map-delivered f g none h = refl
map-delivered f g (some c) h = ap some (h c)

-- After a notification is sent, each client has it added to its inbox exactly if its socket is open and
-- it is addressed: as its user, as its company where no user is meant, or as anybody.
pub route-delivered :
    (n : NewNotification) (w : WsNotification) (clients : Clients) (socket : String)
    → Dict.get socket (route n w clients) ≡ Option.map (delivered n w) (Dict.get socket clients)
unfolding route send_to_user send_to_company broadcast
route-delivered n w clients socket = elim (Bool-cases (get_or n.user_id 0 == 0)) [
  | inr user ↦
      rw
        (
          user,
          Dict.get-map_values
              (λ c. if is_user (get_or n.user_id 0) c then send_to_client w c else c) socket
              clients,
        )
        (map-delivered _ _ (Dict.get socket clients) (λ c. ground (arith, user)))
  | inl nobody ↦ elim (Bool-cases (is_empty (get_or n.company_id ""))) [
    | inr company ↦
        rw
          (
            nobody,
            company,
            Dict.get-map_values
                (λ c. if is_of_company (get_or n.company_id "") c then send_to_client w c else c)
                socket clients,
          )
          (map-delivered _ _ (Dict.get socket clients) (λ c. ground (arith, nobody, company)))
    | inl anybody ↦
        rw (nobody, anybody, Dict.get-map_values (send_to_client w) socket clients)
          (map-delivered _ _ (Dict.get socket clients) (λ c. ground (arith, nobody, anybody)))
  ]
]

-- A client whose socket is open and that names a user in a message, which nothing checks, receives the
-- next notification for that user.
pub receive-impersonates :
    (socket : String) (c : WebSocketClient) (clients : Clients) (u : ℕ) (n : NewNotification)
    (w : WsNotification)
    → Dict.get socket clients ≡ some c
    → c.is_open ≡ true
    → (u == 0) ≡ false
    → n.user_id ≡ some u
    → Option.map
        (λ d. d.inbox)
        (Dict.get socket (route n w (receive socket (authenticate (some u) none) clients)))
      ≡ some (c.inbox ++ w ∷ [])
unfolding receive handle_message
receive-impersonates socket c clients u n w there open_socket real meant =
    let claimed = handle_message (authenticate (some u) none) c in
    let in_map : Dict.get socket (receive socket (authenticate (some u) none) clients)
        ≡ some claimed =
      ap (λ found. Dict.get socket (received_by (authenticate (some u) none) found socket clients))
        there
      ∙ Dict.get-set_same socket claimed clients in
    let chosen : is_addressed n claimed ≡ true = ground (arith, real, ap (λ i. get_or i 0) meant) in
    rw (
      route-delivered n w (receive socket (authenticate (some u) none) clients) socket,
      in_map,
      open_socket,
      chosen,
    )
