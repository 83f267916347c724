-- ===== src/Rpc/TicketsManager.antt =====
-- rpc/base/src/tls/TicketsManager.cpp: the session tickets of a connection, by the time they expire.
-- The multimap is a list in the order of its keys; a new entry comes behind the ones with an equal key.
-- `now` is the clock's answer in the call, in milliseconds; times are natural numbers, and
-- `tickets_ttl` is `none` for the code's `NULL_TTL`.
pub mod Laws
use privmx_endpoint.Common.{
  ltb, ◌==◌, if◌then◌else◌, Result, ok, err, tickets_count_is_equal_zero, undefined_behaviour,
  length, Bytes, ℕ, ◌+◌, ◌-◌, ◌*◌, max, Bool, false, not, ◌||◌, Option, none, some, List, [], ◌∷◌,
}

pub record SessionTicket : Type 0 where
  pub id : Bytes
  pub master_secret : Bytes

pub record TicketsManager : Type 0 where
  pub tickets : List (ℕ × SessionTicket)
  pub tickets_ttl : Option ℕ

abbrev pub min_ticket_ttl : ℕ
min_ticket_ttl = 5000

abbrev pub ttl_threshold : ℕ
ttl_threshold = 15000

-- `std::multimap::emplace`.
unfoldable pub emplace : ℕ → SessionTicket → List (ℕ × SessionTicket) → List (ℕ × SessionTicket)
emplace ttl ticket [] = (ttl, ticket) ∷ []
emplace ttl ticket (p ∷ ps) =
    let rest = emplace ttl ticket ps in if ltb ttl p.0 then (ttl, ticket) ∷ p ∷ ps else p ∷ rest

-- The loop over the identifiers that the server has sent.
unfoldable pub emplace_all :
    ℕ → Bytes → List Bytes → List (ℕ × SessionTicket) → List (ℕ × SessionTicket)
emplace_all ttl master_secret [] ps = ps
emplace_all ttl master_secret (id ∷ ids) ps =
    emplace_all ttl master_secret ids
      (emplace ttl (record { id = id; master_secret = master_secret }) ps)

unfoldable pub later : Option ℕ → ℕ → ℕ
later none t = t
later (some old) t = max old t

-- Below the clock's range neither the product nor the difference leaves the natural numbers.
unfoldable pub save_tickets : ℕ → List Bytes → ℕ → Bytes → TicketsManager → TicketsManager
save_tickets now ids ttl master_secret m =
    let new_tickets_ttl = now + ttl * 1000 - min_ticket_ttl in
    record {
      tickets = emplace_all new_tickets_ttl master_secret ids m.tickets;
      tickets_ttl = some (later m.tickets_ttl new_tickets_ttl);
    }

-- The entries from `upper_bound(now)` on.
unfoldable pub after_bound : ℕ → List (ℕ × SessionTicket) → List (ℕ × SessionTicket)
after_bound now [] = []
after_bound now (p ∷ ps) = let rest = after_bound now ps in if ltb now p.0 then p ∷ ps else rest

unfoldable pub drop_expired_tickets : ℕ → TicketsManager → TicketsManager
drop_expired_tickets now m = record m { tickets = after_bound now m.tickets }

unfoldable pub tickets_count : TicketsManager → ℕ
tickets_count m = length m.tickets

-- The first ticket is taken out; without one the code reads past the end.
unfoldable pub take_first : TicketsManager → TicketsManager × Result SessionTicket
take_first m = elim m.tickets [
  | [] ↦ (m, err undefined_behaviour)
  | p ∷ ps ↦ (record m { tickets = ps }, ok p.1)
]

-- `on_tickets_equal_zero` is the callback, where it is set: it changes the manager as it likes.
unfoldable pub use_ticket :
    ℕ
    → Option (TicketsManager → TicketsManager)
    → TicketsManager
    → TicketsManager × Result SessionTicket
use_ticket now on_tickets_equal_zero m =
    let fresh = drop_expired_tickets now m in
    if not (tickets_count fresh == 0) then take_first fresh else elim on_tickets_equal_zero [
      | none ↦ (fresh, err tickets_count_is_equal_zero)
      | some refill ↦ take_first (refill fresh)
    ]

unfoldable pub clear : TicketsManager → TicketsManager
clear m = record m { tickets = [] }

unfoldable pub runs_out : ℕ → Option ℕ → Bool
runs_out now none = false
runs_out now (some ttl) = ltb ttl (now + ttl_threshold)

unfoldable pub should_ask_for_new_tickets : ℕ → ℕ → TicketsManager → TicketsManager × Bool
should_ask_for_new_tickets now min_count m =
    let fresh = drop_expired_tickets now m in
    (fresh, ltb (tickets_count fresh) min_count || runs_out now fresh.tickets_ttl)
