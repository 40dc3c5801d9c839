-- ===== src/PubsubInfo/Scenarios.antt =====
-- A small service, on which the theorems are applied (gcpapi/pubsub.go): messages are numbered.
use gcp_emulator_pool.Common.{
  ℕ, suc, ◌≡◌, refl, inl, inr, true, false, none, some, List, [], ◌∷◌, Str, bytes, lookup, insert,
}
use gcp_emulator_pool.Strconv.{itoa}
use gcp_emulator_pool.PubsubInfo.{Service, Info, get_topic, send_pub_sub_messages}
use gcp_emulator_pool.PubsubInfo.Batches.{tally, IsSchedule, send_pub_sub_messages-publish_each}
use gcp_emulator_pool.PubsubInfo.Batches.Cells.{publish_each}

abbrev numbered : Service
numbered = record {
  World = ℕ;
  Error = Str;
  Topic = Str;
  Message = Str;
  Result = ℕ;
  topic = λ name w. (name, w);
  marshal = λ m. elim m [ [] ↦ inl (bytes "empty") | c ∷ m' ↦ inr (c ∷ m') ];
  base64 = λ s. s;
  mac = λ k s. inr s;
  publish = λ t text attributes w. (w, suc w);
  result_of = λ r. (itoa r, none);
  close_client = λ w. w;
  close_server = λ w. w;
  clear_messages = λ w. w;
}

abbrev new_info : Info Str
new_info = record {
  has_client = true;
  secret_key = bytes "k";
  topic_cache = none;
  has_test_server = false;
  sent_message_ids_by_topic = [];
}

abbrev with_topic : Info Str
with_topic = record new_info { topic_cache = some ((bytes "t", bytes "t") ∷ []) }

abbrev in_order : List (ℕ × ℕ) → List (ℕ × ℕ)
in_order q = q

in_order-IsSchedule : IsSchedule numbered in_order
in_order-IsSchedule q h = (h, λ j. refl)

topic_new : get_topic numbered (bytes "t") new_info 0 ≡ ((bytes "t", with_topic), 0)
unfolding get_topic lookup insert
topic_new = refl

send_pub_sub_messages-publish_each_example :
    send_pub_sub_messages numbered in_order (bytes "t") (bytes "a" ∷ [] ∷ []) new_info 0 ≡ (
      some (
          tally numbered
            (bytes "t")
            (publish_each numbered (bytes "k") (bytes "t") (bytes "a" ∷ [] ∷ []) 0).0
            with_topic),
      (publish_each numbered (bytes "k") (bytes "t") (bytes "a" ∷ [] ∷ []) 0).1,
    )
send_pub_sub_messages-publish_each_example =
    send_pub_sub_messages-publish_each numbered in_order (bytes "t") (bytes "a") ([] ∷ []) new_info
      0 (bytes "t") with_topic 0 in_order-IsSchedule topic_new
