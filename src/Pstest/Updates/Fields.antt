-- ===== src/Pstest/Updates/Fields.antt =====
-- Which fields UpdateSubscription may change, and how its loop treats a path of the mask
-- (gcpapi/pubsub/pstest/fake.go).
use gcp_emulator_pool.Common.{
  ◌≡◌, refl, ap, ◌∙◌, subst, sym, Bool, true, false, not, ◌||◌, Option, none, some, List, [], ◌∷◌,
  arith, Str, str_discrete, ℕ_discrete, inl, inr, ℤ, pos, bytes, Bool-cases, ltb_ℤ, ite,
  if◌then◌else◌,
}
use gcp_emulator_pool.Pstest.Pb.{PbSubscription, Code}
use gcp_emulator_pool.Pstest.Subscriptions.{check_ack_deadline, check_mrd}
use gcp_emulator_pool.Pstest.Settings.{Field, field_of, check_field, set_field, update_paths}
use gcp_emulator_pool.Pstest.Acknowledgement.{names_id}

-- The limits on a field that has them: the deadline is between the minimum and ten minutes, and the
-- retention between ten minutes and seven days, where none counts as zero.
abbrev pub is_within : ℤ → ℤ → ℤ → Bool
is_within lo hi n = not (ltb_ℤ n lo || ltb_ℤ hi n)

abbrev pub retention_of : PbSubscription → ℤ
retention_of req = elim req.message_retention_duration [ none ↦ pos 0 | some d ↦ d ]

-- The names of the fields without limits.
abbrev pub free_fields : List Str
free_fields =
    bytes "push_config"
    ∷ bytes "retain_acked_messages"
    ∷ bytes "labels"
    ∷ bytes "expiration_policy"
    ∷ bytes "dead_letter_policy"
    ∷ bytes "retry_policy"
    ∷ bytes "filter"
    ∷ []

-- Whether a mask may have the path.
unfoldable pub is_allowed : ℤ → PbSubscription → Str → Bool
is_allowed min_secs req path =
    ite (str_discrete path (bytes "ack_deadline_seconds"))
      (is_within min_secs (pos 600) req.ack_deadline_seconds)
      (ite (str_discrete path (bytes "message_retention_duration"))
        (is_within (pos 600000000000) (pos 604800000000000) (retention_of req))
        (names_id path free_fields))

unfoldable pub all_allowed : ℤ → PbSubscription → List Str → Bool
all_allowed min_secs req [] = true
all_allowed min_secs req (path ∷ paths) =
    if is_allowed min_secs req path then all_allowed min_secs req paths else false

-- The settings with the fields that a mask names taken from the request.
abbrev pub updated : PbSubscription → List Str → PbSubscription → PbSubscription
updated req mask p = record p {
  push_config = if names_id (bytes "push_config") mask then req.push_config else p.push_config;
  ack_deadline_seconds =
      if names_id (bytes "ack_deadline_seconds") mask
      then req.ack_deadline_seconds
      else p.ack_deadline_seconds;
  retain_acked_messages =
      if names_id (bytes "retain_acked_messages") mask
      then req.retain_acked_messages
      else p.retain_acked_messages;
  message_retention_duration =
      if names_id (bytes "message_retention_duration") mask
      then req.message_retention_duration
      else p.message_retention_duration;
  labels = if names_id (bytes "labels") mask then req.labels else p.labels;
  expiration_policy =
      if names_id (bytes "expiration_policy") mask
      then req.expiration_policy
      else p.expiration_policy;
  dead_letter_policy =
      if names_id (bytes "dead_letter_policy") mask
      then req.dead_letter_policy
      else p.dead_letter_policy;
  retry_policy = if names_id (bytes "retry_policy") mask then req.retry_policy else p.retry_policy;
  filter = if names_id (bytes "filter") mask then req.filter else p.filter;
}

if_same : {A : Type 0} (b : Bool) (x : A) → (if b then x else x) ≡ x
if_same true x = refl
if_same false x = refl

check_ack_deadline-is_within :
    (min_secs n : ℤ)
    → check_ack_deadline min_secs n
      ≡ (if is_within min_secs (pos 600) n then none else some Code.unknown)
unfolding check_ack_deadline
check_ack_deadline-is_within min_secs n =
    elim (Bool-cases (ltb_ℤ n min_secs || ltb_ℤ (pos 600) n)) [
      | inl out ↦ rw out refl
      | inr inside ↦ rw inside refl
    ]

check_mrd-is_within :
    (d : Option ℤ)
    → check_mrd d ≡ (
        if is_within (pos 600000000000) (pos 604800000000000) (elim d [ none ↦ pos 0 | some n ↦ n ])
        then none
        else some Code.invalid_argument)
unfolding check_mrd
check_mrd-is_within none = refl
check_mrd-is_within (some n) =
    elim (Bool-cases (ltb_ℤ n (pos 600000000000) || ltb_ℤ (pos 604800000000000) n)) [
      | inl out ↦ rw out refl
      | inr inside ↦ rw inside refl
    ]

module _ (min_secs : ℤ) (req : PbSubscription) where
  -- How the loop treats a path: it goes on with the field taken over, or stops with an error.
  pub data Treats (path : Str) : Type 0 where
    takes :
        (f : Field)
        → is_allowed min_secs req path ≡ true
        → field_of path ≡ some f
        → check_field min_secs req f ≡ none
        → ((mask : List Str) (p : PbSubscription)
            → updated req mask (set_field req f p) ≡ updated req (path ∷ mask) p)
        → Treats path
    refuses :
        (code : Code)
        → is_allowed min_secs req path ≡ false
        → ((mask : List Str) (p : PbSubscription)
            → (update_paths min_secs req (path ∷ mask) p).1 ≡ some code)
        → Treats path

  on_push_config : Treats (bytes "push_config")
  unfolding is_allowed field_of check_field set_field names_id str_discrete ℕ_discrete
  on_push_config = takes Field.push_config refl refl refl λ mask p.
      ap (λ x. record (updated req mask p) { push_config = x })
        (if_same (names_id (bytes "push_config") mask) req.push_config)

  on_ack_deadline_seconds : Treats (bytes "ack_deadline_seconds")
  unfolding is_allowed field_of check_field set_field names_id str_discrete ℕ_discrete update_paths
  on_ack_deadline_seconds =
      elim (Bool-cases (is_within min_secs (pos 600) req.ack_deadline_seconds)) [
        | inl inside ↦
            takes Field.ack_deadline_seconds inside refl
              (check_ack_deadline-is_within min_secs req.ack_deadline_seconds
                ∙ ap (λ b. if b then none else some Code.unknown) inside)
              λ mask p.
                ap (λ x. record (updated req mask p) { ack_deadline_seconds = x })
                  (if_same (names_id (bytes "ack_deadline_seconds") mask) req.ack_deadline_seconds)
        | inr outside ↦ refuses Code.unknown outside (λ mask p.
            ap
              (λ x.
                (elim x as (λ _. PbSubscription × Option Code) [
                  | none ↦
                      update_paths min_secs req mask (set_field req Field.ack_deadline_seconds p)
                  | some code ↦ (p, some code)
                ]).1)
              (check_ack_deadline-is_within min_secs req.ack_deadline_seconds
                ∙ ap (λ b. if b then none else some Code.unknown) outside))
      ]

  on_retain_acked_messages : Treats (bytes "retain_acked_messages")
  unfolding is_allowed field_of check_field set_field names_id str_discrete ℕ_discrete
  on_retain_acked_messages = takes Field.retain_acked_messages refl refl refl λ mask p.
      ap (λ x. record (updated req mask p) { retain_acked_messages = x })
        (if_same (names_id (bytes "retain_acked_messages") mask) req.retain_acked_messages)

  on_message_retention_duration : Treats (bytes "message_retention_duration")
  unfolding is_allowed field_of check_field set_field names_id str_discrete ℕ_discrete update_paths
  on_message_retention_duration =
      elim (Bool-cases (is_within (pos 600000000000) (pos 604800000000000) (retention_of req))) [
        | inl inside ↦
            takes Field.message_retention_duration inside refl
              (check_mrd-is_within req.message_retention_duration
                ∙ ap (λ b. if b then none else some Code.invalid_argument) inside)
              λ mask p.
                ap (λ x. record (updated req mask p) { message_retention_duration = x })
                  (if_same (names_id (bytes "message_retention_duration") mask)
                    req.message_retention_duration)
        | inr outside ↦ refuses Code.invalid_argument outside (λ mask p.
            ap
              (λ x.
                (elim x as (λ _. PbSubscription × Option Code) [
                  | none ↦
                      update_paths min_secs req mask
                        (set_field req Field.message_retention_duration p)
                  | some code ↦ (p, some code)
                ]).1)
              (check_mrd-is_within req.message_retention_duration
                ∙ ap (λ b. if b then none else some Code.invalid_argument) outside))
      ]

  on_labels : Treats (bytes "labels")
  unfolding is_allowed field_of check_field set_field names_id str_discrete ℕ_discrete
  on_labels = takes Field.labels refl refl refl λ mask p.
      ap (λ x. record (updated req mask p) { labels = x })
        (if_same (names_id (bytes "labels") mask) req.labels)

  on_expiration_policy : Treats (bytes "expiration_policy")
  unfolding is_allowed field_of check_field set_field names_id str_discrete ℕ_discrete
  on_expiration_policy = takes Field.expiration_policy refl refl refl λ mask p.
      ap (λ x. record (updated req mask p) { expiration_policy = x })
        (if_same (names_id (bytes "expiration_policy") mask) req.expiration_policy)

  on_dead_letter_policy : Treats (bytes "dead_letter_policy")
  unfolding is_allowed field_of check_field set_field names_id str_discrete ℕ_discrete
  on_dead_letter_policy = takes Field.dead_letter_policy refl refl refl λ mask p.
      ap (λ x. record (updated req mask p) { dead_letter_policy = x })
        (if_same (names_id (bytes "dead_letter_policy") mask) req.dead_letter_policy)

  on_retry_policy : Treats (bytes "retry_policy")
  unfolding is_allowed field_of check_field set_field names_id str_discrete ℕ_discrete
  on_retry_policy = takes Field.retry_policy refl refl refl λ mask p.
      ap (λ x. record (updated req mask p) { retry_policy = x })
        (if_same (names_id (bytes "retry_policy") mask) req.retry_policy)

  on_filter : Treats (bytes "filter")
  unfolding is_allowed field_of check_field set_field names_id str_discrete ℕ_discrete
  on_filter = takes Field.filter refl refl refl λ mask p.
      ap (λ x. record (updated req mask p) { filter = x })
        (if_same (names_id (bytes "filter") mask) req.filter)

  pub treats : (path : Str) → Treats path
  unfolding field_of is_allowed names_id update_paths
  treats path = elim (str_discrete path (bytes "push_config")) [
    | yes e ↦ subst Treats (sym e) on_push_config
    | no n0 ↦ elim (str_discrete path (bytes "ack_deadline_seconds")) [
      | yes e ↦ subst Treats (sym e) on_ack_deadline_seconds
      | no n1 ↦ elim (str_discrete path (bytes "retain_acked_messages")) [
        | yes e ↦ subst Treats (sym e) on_retain_acked_messages
        | no n2 ↦ elim (str_discrete path (bytes "message_retention_duration")) [
          | yes e ↦ subst Treats (sym e) on_message_retention_duration
          | no n3 ↦ elim (str_discrete path (bytes "labels")) [
            | yes e ↦ subst Treats (sym e) on_labels
            | no n4 ↦ elim (str_discrete path (bytes "expiration_policy")) [
              | yes e ↦ subst Treats (sym e) on_expiration_policy
              | no n5 ↦ elim (str_discrete path (bytes "dead_letter_policy")) [
                | yes e ↦ subst Treats (sym e) on_dead_letter_policy
                | no n6 ↦ elim (str_discrete path (bytes "retry_policy")) [
                  | yes e ↦ subst Treats (sym e) on_retry_policy
                  | no n7 ↦ elim (str_discrete path (bytes "filter")) [
                    | yes e ↦ subst Treats (sym e) on_filter
                    | no n8 ↦
                        refuses Code.invalid_argument
                          (ground (arith, n0, n1, n2, n3, n4, n5, n6, n7, n8))
                          (λ mask p. ground (arith, n0, n1, n2, n3, n4, n5, n6, n7, n8))
                  ]
                ]
              ]
            ]
          ]
        ]
      ]
    ]
  ]
