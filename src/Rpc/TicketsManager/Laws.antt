-- ===== src/Rpc/TicketsManager/Laws.antt =====
-- Tickets stay in the order of their expiry, and none that has expired is used.
use mathlib.Core.Path.{subst}
use privmx_endpoint.Common.{
  ltb, ltb→lt, Bool-cases, Result, ok, err, tickets_count_is_equal_zero, length, Bytes, ℕ, suc, ◌+◌,
  ◌≤◌, ◌<◌, ◌≡◌, refl, sym, ap, ◌∙◌, inl, inr, none, List, [], ◌∷◌, ◌++◌, append-nil, arith,
  ==-false,
}
use privmx_endpoint.Rpc.TicketsManager.{
  TicketsManager, SessionTicket, emplace, emplace_all, save_tickets, after_bound,
  drop_expired_tickets, use_ticket, take_first, tickets_count,
}

-- In the order of their expiry, none before `low`.
abbrev pub IsOrdered : ℕ → List (ℕ × SessionTicket) → Type 0
IsOrdered low [] = Unit {0}
IsOrdered low (p ∷ ps) = (low ≤ p.0) × IsOrdered p.0 ps

IsOrdered-weaken :
    (low low' : ℕ) (ps : List (ℕ × SessionTicket))
    → low' ≤ low
    → IsOrdered low ps
    → IsOrdered low' ps
IsOrdered-weaken low low' [] h o = tt
IsOrdered-weaken low low' (p ∷ ps) h o = (omega (arith, h, o.0), o.1)

emplace-IsOrdered :
    (low ttl : ℕ) (t : SessionTicket) (ps : List (ℕ × SessionTicket))
    → low ≤ ttl
    → IsOrdered low ps
    → IsOrdered low (emplace ttl t ps)
unfolding emplace
emplace-IsOrdered low ttl t [] h o = (h, tt)
emplace-IsOrdered low ttl t (p ∷ ps) h o = elim (Bool-cases (ltb ttl p.0)) [
  | inl e ↦ rw e (h, (omega (arith, ltb→lt ttl p.0 e), o.1))
  | inr e ↦ rw e (o.0, emplace-IsOrdered p.0 ttl t ps (ground (arith, e)) o.1)
]

emplace_all-IsOrdered :
    (ttl : ℕ) (secret : Bytes) (ids : List Bytes) (ps : List (ℕ × SessionTicket))
    → IsOrdered 0 ps
    → IsOrdered 0 (emplace_all ttl secret ids ps)
unfolding emplace_all
emplace_all-IsOrdered ttl secret [] ps o = o
emplace_all-IsOrdered ttl secret (id ∷ ids) ps o =
    emplace_all-IsOrdered ttl secret ids _ (emplace-IsOrdered 0 ttl _ ps (omega arith) o)

after_bound-IsOrdered :
    (now low : ℕ) (ps : List (ℕ × SessionTicket))
    → IsOrdered low ps
    → IsOrdered (now + 1) (after_bound now ps)
unfolding after_bound
after_bound-IsOrdered now low [] o = tt
after_bound-IsOrdered now low (p ∷ ps) o = elim (Bool-cases (ltb now p.0)) [
  | inl e ↦ rw e (omega (arith, ltb→lt now p.0 e), o.1)
  | inr e ↦ rw e (after_bound-IsOrdered now p.0 ps o.1)
]

-- saveTickets keeps the tickets in the order of their expiry.
pub save_tickets-IsOrdered :
    (now ttl : ℕ) (ids : List Bytes) (secret : Bytes) (m : TicketsManager)
    → IsOrdered 0 m.tickets
    → IsOrdered 0 (save_tickets now ids ttl secret m).tickets
unfolding save_tickets
save_tickets-IsOrdered now ttl ids secret m o = emplace_all-IsOrdered _ secret ids m.tickets o

-- All have expired.
abbrev pub AreExpired : ℕ → List (ℕ × SessionTicket) → Type 0
AreExpired now [] = Unit {0}
AreExpired now (p ∷ ps) = (p.0 ≤ now) × AreExpired now ps

after_bound-split :
    (now : ℕ) (ps : List (ℕ × SessionTicket))
    → (old : List (ℕ × SessionTicket)) × (ps ≡ old ++ after_bound now ps) × AreExpired now old
unfolding after_bound
after_bound-split now [] = ([], refl, tt)
after_bound-split now (p ∷ ps) = elim (Bool-cases (ltb now p.0)) [
  | inl e ↦ rw e ([], refl, tt)
  | inr e ↦
      let (old, split, expired) = after_bound-split now ps in
      rw e (p ∷ old, ap (λ l. p ∷ l) split, (ground (arith, e), expired))
]

-- What `useTicket` does without a callback: with no ticket that expires after `now` it throws and leaves
-- none; else it returns the one that expires first of those, and keeps the later ones.
pub data UseOutcome (now : ℕ) (m : TicketsManager) (r : TicketsManager × Result SessionTicket)
    : Type 0 where
  all_expired :
      AreExpired now m.tickets
      → r.1 ≡ err tickets_count_is_equal_zero
      → r.0.tickets ≡ []
      → UseOutcome now m r
  earliest :
      (old later : List (ℕ × SessionTicket)) (ttl : ℕ) (t : SessionTicket)
      → m.tickets ≡ old ++ (ttl, t) ∷ later
      → AreExpired now old
      → now < ttl
      → r.1 ≡ ok t
      → r.0.tickets ≡ later
      → IsOrdered ttl r.0.tickets
      → UseOutcome now m r

-- For tickets in the order of their expiry, useTicket without a callback either throws, all
-- tickets having expired and none being left, or returns the earliest ticket that has not expired
-- and keeps those after it, still in order.
pub use_ticket-earliest :
    (now : ℕ) (m : TicketsManager)
    → IsOrdered 0 m.tickets
    → UseOutcome now m (use_ticket now none m)
unfolding use_ticket take_first drop_expired_tickets tickets_count
use_ticket-earliest now m o =
    go (after_bound now m.tickets) refl (after_bound-IsOrdered now 0 m.tickets o)
  where
    split :
        (old : List (ℕ × SessionTicket)) × (m.tickets ≡ old ++ after_bound now m.tickets)
        × AreExpired now old
    split = after_bound-split now m.tickets

    go :
        (ps : List (ℕ × SessionTicket))
        → after_bound now m.tickets ≡ ps
        → IsOrdered (now + 1) ps
        → UseOutcome now m (use_ticket now none m)
    go [] e o' = subst (UseOutcome now m) (sym thrown) (
        all_expired
          (subst (AreExpired now) (sym (split.1 ∙ ap (λ l. split.0 ++ l) e ∙ append-nil split.0))
            split.2)
          refl refl)
      where
        thrown :
            use_ticket now none m ≡ (record m { tickets = [] }, err tickets_count_is_equal_zero)
        thrown = rw (use_ticket, e) refl
    go (p ∷ ps) e o' = subst (UseOutcome now m) (sym used) (
        earliest split.0 ps p.0 p.1 (split.1 ∙ ap (λ l. split.0 ++ l) e) split.2
          (omega (arith, o'.0)) refl refl o'.1)
      where
        used : use_ticket now none m ≡ (record m { tickets = ps }, ok p.1)
        used = rw (use_ticket, e, ==-false (suc (length ps)) 0 (λ h. omega (arith, h))) refl
