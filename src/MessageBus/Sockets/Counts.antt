-- ===== src/MessageBus/Sockets/Counts.antt =====
-- The connections of each company (message_bus/src/services/websocket-service.ts).
use kpm_cursor.Base.{ℕ, ◌+◌, ◌≡◌, List, [], ◌∷◌, arith, ◌==◌, if◌then◌else◌, length, filter, sum_by}
use kpm_cursor.MessageBus.Sockets.{
  AuthenticatedSocket, WebSocketService, bump, bump_all, count_sockets, get_connections_by_company,
}
use kpm_cursor.Base.Dict.{Dict}

-- `companyConnections[companyId]`, 0 where it is undefined
abbrev pub count_of : ℕ → List (ℕ × ℕ) → ℕ
count_of id [] = 0
count_of id ((k, n) ∷ counts) = if k == id then n else count_of id counts

abbrev pub occurrences : ℕ → List ℕ → ℕ
occurrences id ids = length (filter (λ i. i == id) ids)

count_of-bump :
    (id k : ℕ) (counts : List (ℕ × ℕ))
    → count_of id (bump k counts) ≡ count_of id counts + (if k == id then 1 else 0)
count_of-bump id k [] = ground arith
count_of-bump id k ((j, n) ∷ counts) = ground (arith, count_of-bump id k counts)

count_of-bump_all :
    (id : ℕ) (ids : List ℕ) (counts : List (ℕ × ℕ))
    → count_of id (bump_all ids counts) ≡ count_of id counts + occurrences id ids
count_of-bump_all id [] counts = omega arith
count_of-bump_all id (k ∷ ids) counts =
    ground (arith, count_of-bump_all id ids (bump k counts), count_of-bump id k counts)

count_of-count_sockets :
    (id : ℕ) (sockets : Dict AuthenticatedSocket) (counts : List (ℕ × ℕ))
    → count_of id (count_sockets sockets counts)
      ≡ count_of id counts + sum_by (λ e. occurrences id e.1.company_ids) sockets
count_of-count_sockets id [] counts = omega arith
count_of-count_sockets id ((s, a) ∷ sockets) counts = omega (
  arith,
  count_of-count_sockets id sockets (bump_all a.company_ids counts),
  count_of-bump_all id a.company_ids counts,
)

-- The count of a company is the number of times that the companies of authenticated sockets list it.
pub get_connections_by_company-sum :
    {R : Type 0} (w : WebSocketService R) (id : ℕ)
    → count_of id (get_connections_by_company w)
      ≡ sum_by (λ e. occurrences id e.1.company_ids) w.authenticated_sockets
unfolding get_connections_by_company
get_connections_by_company-sum w id =
    omega (arith, count_of-count_sockets id w.authenticated_sockets [])
