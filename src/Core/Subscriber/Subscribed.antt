-- ===== src/Core/Subscriber/Subscribed.antt =====
-- The subscriptions that are kept.
use privmx_endpoint.Common.{
  lt→ltb, Bool-cases, ok, length, Bytes, bytes_eq, bytes_eq→eq, suc, ◌≡◌, refl, sym, ap, ◌∙◌, ◌⊎◌,
  inl, inr, true, none, List, [], ◌∷◌, arith,
}
use privmx_endpoint.Utils.Key.{bytes_key}
use privmx_endpoint.Utils.ThreadSaveMap.{get, erase}
use privmx_endpoint.Utils.ThreadSaveMap.Laws.{get-erase_same, get-erase_other}
use privmx_endpoint.Core.Subscriber.{
  Channels, Subscribed, erase_all, keys_of, unsubscribe_from, unsubscribe_from_currently_subscribed,
  get_subscription_query,
}

abbrev IsIn : Bytes → List Bytes → Type 0
IsIn id [] = ⊥
IsIn id (x ∷ xs) = (bytes_eq id x ≡ true) ⊎ IsIn id xs

get-erase_gone : (id x : Bytes) (m : Subscribed) → get id m ≡ none → get id (erase x m) ≡ none
get-erase_gone id x m h = elim (Bool-cases (bytes_eq id x)) [
  | inl t ↦ ap (λ y. get id (erase y m)) (sym (bytes_eq→eq id x t)) ∙ get-erase_same id m
  | inr f ↦ get-erase_other x id m f ∙ h
]

get-erase_all_gone :
    (ids : List Bytes) (id : Bytes) (m : Subscribed)
    → get id m ≡ none
    → get id (erase_all ids m) ≡ none
unfolding erase_all
get-erase_all_gone [] id m h = h
get-erase_all_gone (x ∷ xs) id m h = get-erase_all_gone xs id (erase x m) (get-erase_gone id x m h)

get-erase_all :
    (ids : List Bytes) (id : Bytes) (m : Subscribed) → IsIn id ids → get id (erase_all ids m) ≡ none
unfolding erase_all
get-erase_all [] id m h = absurd h
get-erase_all (x ∷ xs) id m (inl t) =
    get-erase_all_gone xs id (erase x m)
      (ap (λ y. get id (erase y m)) (sym (bytes_eq→eq id x t)) ∙ get-erase_same id m)
get-erase_all (x ∷ xs) id m (inr h) = get-erase_all xs id (erase x m) h

key-cases : (id : Bytes) (m : Subscribed) → (get id m ≡ none) ⊎ IsIn id (keys_of m)
unfolding get keys_of
key-cases id [] = inl refl
key-cases id (p ∷ ps) = elim (Bool-cases (bytes_eq id p.0)) [
  | inl t ↦ inr (inl t)
  | inr f ↦ elim (key-cases id ps) [ inl n ↦ inl (rw f n) | inr i ↦ inr (inr i) ]
]

unsubscribe_from_ok :
    (api : Channels) (ids : List Bytes) (m : Subscribed)
    → api.unsubscribe ids ≡ ok tt
    → unsubscribe_from api ids m ≡ (erase_all ids m, ok tt)
unfolding unsubscribe_from
unsubscribe_from_ok api ids m h = rw (unsubscribe_from, h) refl

-- Where the server accepts the request for all identifiers that are subscribed, unsubscribing from
-- all of them succeeds, and no identifier has a subscription then.
pub get_subscription_query-unsubscribe_from_currently_subscribed :
    (api : Channels) (m : Subscribed) (id : Bytes)
    → api.unsubscribe (keys_of m) ≡ ok tt
    → ((unsubscribe_from_currently_subscribed api m).1 ≡ ok tt)
      × (get_subscription_query (unsubscribe_from_currently_subscribed api m).0 id ≡ none)
unfolding unsubscribe_from_currently_subscribed get_subscription_query keys_of
get_subscription_query-unsubscribe_from_currently_subscribed api [] id h =
    unfold get in (refl, refl)
get_subscription_query-unsubscribe_from_currently_subscribed api (p ∷ ps) id h =
    rw
      (
        lt→ltb 0 (suc (length (keys_of ps))) (omega arith),
        unsubscribe_from_ok api (keys_of (p ∷ ps)) (p ∷ ps) h,
      )
      (
        refl,
        elim (key-cases id (p ∷ ps)) [
          | inl n ↦ get-erase_all_gone (keys_of (p ∷ ps)) id (p ∷ ps) n
          | inr i ↦ get-erase_all (keys_of (p ∷ ps)) id (p ∷ ps) i
        ],
      )
