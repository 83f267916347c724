-- ===== src/Tests/Queries.antt =====
-- Texts split and joined, a version, a key identifier, a subscription query and the subscriptions of a connection.
use privmx_endpoint.Common.{
  ok, err, ◌>>=◌, invalid_version_format, length, Bytes, bytes_eq, ◌<◌, ◌≡◌, refl, ◌⊎◌, true, none,
  some, List, [], ◌∷◌, arith,
}
use privmx_endpoint.Utils.Split.{split_char, split}
use privmx_endpoint.Utils.Split.Laws.{split_char-joined_by}
use privmx_endpoint.Utils.Split.Search.{joined, AreFree, split-joined}
use privmx_endpoint.Utils.VersionNumber.{VersionNumber}
use privmx_endpoint.Utils.VersionNumber.Parsing.{parse_version}
use privmx_endpoint.Utils.VersionNumber.Parsing.Laws.{IsText, parse_version-IsText}
use privmx_endpoint.Utils.Split.{split_loop, find, starts_with}
use privmx_endpoint.Core.KeyIdFormatValidator.{
  has_extended_key_id_format, front_is, back_is, has_elements, inbox_prefix,
}
use privmx_endpoint.Core.KeyIdFormatValidator.Elements.{
  IsExtended, has_extended_key_id_format-IsExtended,
}
use privmx_endpoint.Core.Subscriber.{
  QuerySelector, Subscribed, Channels, parse_query, to_subscription_query_string,
  get_subscription_query, unsubscribe_from_currently_subscribed,
}
use privmx_endpoint.Core.Subscriber.Query.{parse_query-to_subscription_query_string}
use privmx_endpoint.Core.Subscriber.Subscribed.{
  get_subscription_query-unsubscribe_from_currently_subscribed,
}

-- `1.20.3`.
split_char-joined_by_example :
    split_char (49 ∷ 46 ∷ 50 ∷ 48 ∷ 46 ∷ 51 ∷ []) 46 ≡ (49 ∷ []) ∷ (50 ∷ 48 ∷ []) ∷ (51 ∷ []) ∷ []
split_char-joined_by_example =
    split_char-joined_by 46 (49 ∷ []) ((50 ∷ 48 ∷ []) ∷ (51 ∷ []) ∷ [])
      (
        ((λ e. omega (arith, e)), tt),
        (
          ((λ e. omega (arith, e)), ((λ e. omega (arith, e)), tt)),
          (((λ e. omega (arith, e)), tt), tt),
        ),
      )
      (omega arith)

split-joined_example :
    (ts : List Bytes) × (split (1 ∷ 2 ∷ 9 ∷ 1 ∷ 2 ∷ []) (1 ∷ 2 ∷ []) ≡ some ts)
    × (joined (1 ∷ 2 ∷ []) ts ≡ 1 ∷ 2 ∷ 9 ∷ 1 ∷ 2 ∷ [])
    × AreFree (1 ∷ 2 ∷ []) ts
    × (0 < length ts)
split-joined_example = split-joined (1 ∷ 2 ∷ 9 ∷ 1 ∷ 2 ∷ []) (1 ∷ 2 ∷ []) (omega arith)

abbrev by_id : QuerySelector
by_id = record { selector_key = 105 ∷ []; selector_value = 55 ∷ [] }

-- `a/b|i=7`.
parse_query-to_subscription_query_string_example :
    (to_subscription_query_string
        (record { channel_path = (97 ∷ []) ∷ (98 ∷ []) ∷ []; selectors = by_id ∷ [] })
      >>= parse_query)
    ≡ ok (record { channel_path = (97 ∷ []) ∷ (98 ∷ []) ∷ []; selectors = by_id ∷ [] })
parse_query-to_subscription_query_string_example =
    parse_query-to_subscription_query_string (97 ∷ []) ((98 ∷ []) ∷ []) (by_id ∷ [])
      (record {
        path_main = (((λ e. omega (arith, e)), tt), (((λ e. omega (arith, e)), tt), tt));
        path_slash = (((λ e. omega (arith, e)), tt), (((λ e. omega (arith, e)), tt), tt));
        path_end = omega arith;
      })
      (
        record {
          key_main = ((λ e. omega (arith, e)), tt);
          key_comma = ((λ e. omega (arith, e)), tt);
          key_equals = ((λ e. omega (arith, e)), tt);
          value_main = ((λ e. omega (arith, e)), tt);
          value_comma = ((λ e. omega (arith, e)), tt);
          value_equals = ((λ e. omega (arith, e)), tt);
          some_value = omega arith;
        },
        tt,
      )

abbrev channels : Channels
channels = record {
  request = λ cs. ok [];
  unsubscribe = λ ids. ok tt;
  transform = λ qs. [];
  assert_query = λ qs. ok tt;
}

abbrev subscribed : Subscribed
subscribed = (1 ∷ [], 2 ∷ []) ∷ (3 ∷ [], 4 ∷ []) ∷ []

get_subscription_query-unsubscribe_from_currently_subscribed_example :
    ((unsubscribe_from_currently_subscribed channels subscribed).1 ≡ ok tt)
    × (get_subscription_query (unsubscribe_from_currently_subscribed channels subscribed).0 (3 ∷ [])
        ≡ none)
get_subscription_query-unsubscribe_from_currently_subscribed_example =
    get_subscription_query-unsubscribe_from_currently_subscribed channels subscribed (3 ∷ []) refl

-- `2.10.3b`.
abbrev version_text : Bytes
version_text = 50 ∷ 46 ∷ 49 ∷ 48 ∷ 46 ∷ 51 ∷ 98 ∷ []

parse_version-IsText_example :
    (parse_version version_text ≡ err invalid_version_format)
    ⊎ ((v : VersionNumber) × (parse_version version_text ≡ ok v) × IsText version_text v)
parse_version-IsText_example = parse_version-IsText version_text

-- `<inbox-a>`.
abbrev inbox_key : Bytes
inbox_key = 60 ∷ 105 ∷ 110 ∷ 98 ∷ 111 ∷ 120 ∷ 45 ∷ 97 ∷ 62 ∷ []

inbox_key-accepted : has_extended_key_id_format inbox_key inbox_prefix 1 ≡ true
unfolding has_extended_key_id_format front_is back_is has_elements split split_loop find starts_with
    bytes_eq
inbox_key-accepted = refl

has_extended_key_id_format-IsExtended_example : IsExtended inbox_key inbox_prefix 1
has_extended_key_id_format-IsExtended_example =
    has_extended_key_id_format-IsExtended inbox_key 105 (110 ∷ 98 ∷ 111 ∷ 120 ∷ []) 1
      inbox_key-accepted
