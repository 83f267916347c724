-- ===== src/Core/Subscriber.antt =====
-- endpoint/core/src/Subscriber.cpp: subscription queries as text, and the subscriptions of a connection.
-- The requests to the server and the checks that a derived class makes are parameters.
pub mod Query
pub mod Subscribed
use privmx_endpoint.Common.{
  ltb, if◌then◌else◌, Result, ok, err, ◌>>=◌, ◌>>◌, undefined_behaviour, invalid_subscription_query,
  length, Bytes, bytes_eq, ℕ, Bool, Option, none, some, List, [], ◌∷◌, ◌++◌,
}
use privmx_endpoint.Utils.Key.{bytes_key}
use privmx_endpoint.Utils.ThreadSaveMap.{Map}
use privmx_endpoint.Utils.ThreadSaveMap
use privmx_endpoint.Utils.Split.{split_char}

pub record QuerySelector : Type 0 where
  pub selector_key : Bytes
  pub selector_value : Bytes

pub record SubscriptionQuery : Type 0 where
  pub channel_path : List Bytes
  pub selectors : List QuerySelector

-- The characters `|`, `/`, `,` and `=`.
abbrev pub query_main_separator : ℕ
query_main_separator = 124

abbrev pub query_path_separator : ℕ
query_path_separator = 47

abbrev pub selectors_separator : ℕ
selectors_separator = 44

abbrev pub selector_separator : ℕ
selector_separator = 61

unfoldable pub parse_selector : List Bytes → Result QuerySelector
parse_selector (key ∷ value ∷ []) = ok (record { selector_key = key; selector_value = value })
parse_selector _ = err invalid_subscription_query

unfoldable pub parse_selectors : List Bytes → Result (List QuerySelector)
unfolding parse_selector
parse_selectors [] = ok []
parse_selectors (s ∷ ss) = do
  selector ← parse_selector (split_char s selector_separator)
  rest ← parse_selectors ss
  ok (selector ∷ rest)

-- The constructor, by the parts that the main separator leaves.
unfoldable pub parse_parts : List Bytes → Result SubscriptionQuery
unfolding parse_selectors
parse_parts [] = ok (record { channel_path = []; selectors = [] })
parse_parts (path ∷ []) =
    ok (record { channel_path = split_char path query_path_separator; selectors = [] })
parse_parts (path ∷ rest ∷ []) = do
  selectors ← parse_selectors (split_char rest selectors_separator)
  ok (record { channel_path = split_char path query_path_separator; selectors = selectors })
parse_parts (a ∷ b ∷ c ∷ ds) = err invalid_subscription_query

unfoldable pub parse_query : Bytes → Result SubscriptionQuery
unfolding parse_parts
parse_query s = parse_parts (split_char s query_main_separator)

-- `std::string::pop_back`, which nothing defines on the empty string.
unfoldable pub pop_back : Bytes → Result Bytes
pop_back [] = err undefined_behaviour
pop_back (x ∷ []) = ok []
pop_back (x ∷ y ∷ r) = do rest ← pop_back (y ∷ r); ok (x ∷ rest)

unfoldable pub write_path : List Bytes → Bytes
write_path [] = []
write_path (p ∷ ps) = p ++ query_path_separator ∷ write_path ps

unfoldable pub write_selectors : List QuerySelector → Bytes
write_selectors [] = []
write_selectors (s ∷ ss) =
    s.selector_key
    ++ selector_separator ∷ (s.selector_value ++ selectors_separator ∷ write_selectors ss)

-- Without selectors the last character is the main separator.
unfoldable pub to_subscription_query_string : SubscriptionQuery → Result Bytes
unfolding pop_back write_path write_selectors
to_subscription_query_string q = do
  path ← pop_back (write_path q.channel_path)
  pop_back (path ++ query_main_separator ∷ write_selectors q.selectors)

pub record Subscription : Type 0 where
  pub subscription_id : Bytes
  pub channel : Bytes

-- What a connection's gateway and the derived class do.
pub record Channels : Type 0 where
  pub request : List Bytes → Result (List Subscription)
  pub unsubscribe : List Bytes → Result (Unit {0})
  pub transform : List SubscriptionQuery → List Bytes
  pub assert_query : List SubscriptionQuery → Result (Unit {0})

abbrev pub Subscribed : Type 0
Subscribed = Map Bytes Bytes

-- The inner loop: the first subscription of the channel, which is taken out.
unfoldable pub take_subscription :
    Bytes → List Subscription → Option (Subscription × List Subscription)
take_subscription channel [] = none
take_subscription channel (s ∷ ss) =
    let later = take_subscription channel ss in
    if bytes_eq channel s.channel
    then some (s, ss)
    else elim later [ none ↦ none | some (t, rest) ↦ some (t, s ∷ rest) ]

-- The loop over the channels asked for; a channel without a subscription gives the empty identifier.
unfoldable pub match_channels :
    List Bytes → List Subscription → Subscribed → Subscribed × List Bytes
unfolding take_subscription
match_channels [] subscriptions m = (m, [])
match_channels (c ∷ cs) subscriptions m = elim (take_subscription c subscriptions) [
  | none ↦ let r = match_channels cs subscriptions m in (r.0, [] ∷ r.1)
  | some (s, rest) ↦
      let r = match_channels cs rest (ThreadSaveMap.set s.subscription_id s.channel m) in
      (r.0, s.subscription_id ∷ r.1)
]

unfoldable pub parse_queries : List Bytes → Result (List SubscriptionQuery)
unfolding parse_query
parse_queries [] = ok []
parse_queries (s ∷ ss) = do q ← parse_query s; qs ← parse_queries ss; ok (q ∷ qs)

-- The channels of the request: the queries parsed and checked, or as they are where `force` is set.
unfoldable pub channels_of : Channels → List Bytes → Bool → Result (List Bytes)
unfolding parse_queries
channels_of api queries force = do
  parsed ← parse_queries queries
  if force then ok queries else (do api.assert_query parsed; ok (api.transform parsed))

unfoldable pub subscribe_for :
    Channels → List Bytes → Bool → Subscribed → Subscribed × Result (List Bytes)
unfolding match_channels channels_of
subscribe_for api queries force m = elim (channels_of api queries force) [
  | err e ↦ (m, err e)
  | ok channels ↦ elim (api.request channels) [
    | err e ↦ (m, err e)
    | ok subscriptions ↦ let r = match_channels channels subscriptions m in (r.0, ok r.1)
  ]
]

unfoldable pub erase_all : List Bytes → Subscribed → Subscribed
erase_all [] m = m
erase_all (id ∷ ids) m = erase_all ids (ThreadSaveMap.erase id m)

unfoldable pub unsubscribe_from :
    Channels → List Bytes → Subscribed → Subscribed × Result (Unit {0})
unfolding erase_all
unsubscribe_from api ids m = elim (api.unsubscribe ids) [
  | err e ↦ (m, err e)
  | ok u ↦ (erase_all ids m, ok tt)
]

unfoldable pub keys_of : Subscribed → List Bytes
keys_of [] = []
keys_of (p ∷ ps) = p.0 ∷ keys_of ps

unfoldable pub unsubscribe_from_currently_subscribed :
    Channels → Subscribed → Subscribed × Result (Unit {0})
unfolding keys_of unsubscribe_from
unsubscribe_from_currently_subscribed api m =
    let ids = keys_of m in if ltb 0 (length ids) then unsubscribe_from api ids m else (m, ok tt)

unfoldable pub get_subscription_query : Subscribed → Bytes → Option Bytes
get_subscription_query m id = ThreadSaveMap.get id m

unfoldable pub get_first_subscription_query : Subscribed → List Bytes → Option Bytes
get_first_subscription_query m [] = none
get_first_subscription_query m (id ∷ ids) =
    let later = get_first_subscription_query m ids in
    elim (ThreadSaveMap.get id m) [ none ↦ later | some q ↦ some q ]
