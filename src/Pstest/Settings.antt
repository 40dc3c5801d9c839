-- ===== src/Pstest/Settings.antt =====
-- UpdateSubscription and ListSubscriptions of gcpapi/pubsub/pstest/fake.go.
use gcp_emulator_pool.Common.{
  ℕ, Option, none, some, List, [], ◌∷◌, ite, ℤ, Str, str_discrete, has_prefix, sort_strings, lookup,
  update, bytes, length,
}
use gcp_emulator_pool.Testutil.Paging.{Bounds, page_bounds, collect, rounds}
use gcp_emulator_pool.Pstest.Pb.{
  PbSubscription, Code, update_subscription_req, list_subscriptions_req, subscription_res,
  subscriptions_res,
}
use gcp_emulator_pool.Pstest.State.{GServer, Outcome, success, failure, panic, Handler}
use gcp_emulator_pool.Pstest.Reactors.{intercept}
use gcp_emulator_pool.Pstest.Topics.{names_where}
use gcp_emulator_pool.Pstest.Subscriptions.{
  check_ack_deadline, check_mrd, empty_subscription, with_subscription,
}

-- The fields that a mask may name.
pub data Field : Type 0 where
  push_config ack_deadline_seconds retain_acked_messages message_retention_duration labels : Field
  expiration_policy dead_letter_policy retry_policy filter : Field

-- The labels of the `switch`.
unfoldable pub field_of : Str → Option Field
field_of path = ite (str_discrete path (bytes "push_config")) (some push_config) (
    ite (str_discrete path (bytes "ack_deadline_seconds")) (some ack_deadline_seconds) (
      ite (str_discrete path (bytes "retain_acked_messages")) (some retain_acked_messages) (
        ite (str_discrete path (bytes "message_retention_duration"))
          (some message_retention_duration)
          (ite (str_discrete path (bytes "labels")) (some labels) (
            ite (str_discrete path (bytes "expiration_policy")) (some expiration_policy) (
              ite (str_discrete path (bytes "dead_letter_policy")) (some dead_letter_policy) (
                ite (str_discrete path (bytes "retry_policy")) (some retry_policy)
                  (ite (str_discrete path (bytes "filter")) (some filter) none))))))))

-- The error that the case of a field may return.
unfoldable pub check_field : ℤ → PbSubscription → Field → Option Code
check_field min_secs req ack_deadline_seconds = check_ack_deadline min_secs req.ack_deadline_seconds
check_field min_secs req message_retention_duration = check_mrd req.message_retention_duration
check_field min_secs req _ = none

unfoldable pub set_field : PbSubscription → Field → PbSubscription → PbSubscription
set_field req push_config p = record p { push_config = req.push_config }
set_field req ack_deadline_seconds p = record p { ack_deadline_seconds = req.ack_deadline_seconds }
set_field req retain_acked_messages p = record p {
  retain_acked_messages = req.retain_acked_messages;
}
set_field req message_retention_duration p = record p {
  message_retention_duration = req.message_retention_duration;
}
set_field req labels p = record p { labels = req.labels }
set_field req expiration_policy p = record p { expiration_policy = req.expiration_policy }
set_field req dead_letter_policy p = record p { dead_letter_policy = req.dead_letter_policy }
set_field req retry_policy p = record p { retry_policy = req.retry_policy }
set_field req filter p = record p { filter = req.filter }

-- The loop over the paths: the settings as far as they are updated, and the error.
unfoldable pub update_paths :
    ℤ → PbSubscription → List Str → PbSubscription → PbSubscription × Option Code
update_paths min_secs req [] p = (p, none)
update_paths min_secs req (path ∷ paths) p = elim (field_of path) [
  | none ↦ (p, some Code.invalid_argument)
  | some f ↦ elim (check_field min_secs req f) [
    | some code ↦ (p, some code)
    | none ↦ update_paths min_secs req paths (set_field req f p)
  ]
]

unfoldable pub store_subscription : ℕ → PbSubscription × Option Code → Handler
store_subscription r (p, err) s =
    let s' = record s { sub_heap = update s.sub_heap r (record (s.sub_heap r) { proto = p }) } in
    elim err [ none ↦ (success (subscription_res p), s') | some code ↦ (failure code, s') ]

-- A request with no mask, for a subscription that is there, dereferences nil.
unfoldable pub update_subscription_body : PbSubscription → Option (List Str) → ℕ → Handler
unfolding store_subscription
update_subscription_body req none r s = (panic, s)
update_subscription_body req (some paths) r s =
    store_subscription r (update_paths s.min_ack_deadline_secs req paths (s.sub_heap r).proto) s

unfoldable pub update_subscription : Option PbSubscription → Option (List Str) → Handler
update_subscription none mask s = (failure Code.invalid_argument, s)
update_subscription (some req) mask s =
    intercept (bytes "UpdateSubscription") (update_subscription_req (some req) mask)
      (subscription_res empty_subscription)
      (with_subscription req.name (update_subscription_body req mask)) s

-- `s.subs[n].proto`. Every name that the handler looks up comes from the map.
unfoldable pub subscription_at : GServer → Str → PbSubscription
subscription_at s name = elim (lookup str_discrete name s.subs) [
  | some r ↦ (s.sub_heap r).proto
  | none ↦ empty_subscription
]

abbrev pub map_subscriptions : (Str → PbSubscription) → List Str → List PbSubscription
map_subscriptions f [] = []
map_subscriptions f (n ∷ ns) = f n ∷ map_subscriptions f ns

unfoldable pub subscriptions_page : GServer → List Str → Option Bounds → Outcome
subscriptions_page s names none = failure Code.invalid_argument
subscriptions_page s names (some b) = elim (collect names b.from (rounds b.from b.to)) [
  | none ↦ panic
  | some page ↦
      success (subscriptions_res (map_subscriptions (subscription_at s) page) b.next_page_token)
]

abbrev pub subscription_names : GServer → Str → List Str
subscription_names s project = sort_strings (names_where (λ n _. has_prefix n project) s.subs)

unfoldable pub list_subscriptions_body : Str → ℤ → Str → Handler
unfolding subscriptions_page names_where
list_subscriptions_body project page_size page_token s =
    let names = subscription_names s project in
    (subscriptions_page s names (page_bounds page_size page_token (length names)), s)

unfoldable pub list_subscriptions : Str → ℤ → Str → Handler
list_subscriptions project page_size page_token =
    intercept (bytes "ListSubscriptions") (list_subscriptions_req project page_size page_token)
      (subscriptions_res [] []) (list_subscriptions_body project page_size page_token)
