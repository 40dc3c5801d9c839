-- ===== src/Pstest/Admission.antt =====
-- Which subscriptions CreateSubscription accepts (gcpapi/pubsub/pstest/fake.go).
use gcp_emulator_pool.Common.{
  ℕ, ◌≡◌, ◌≢◌, ◌⊎◌, ap, none, some, [], arith, str_discrete, inl, inr, lookup, lookup-insert,
  update_self, Option-cases, true, false, ◌||◌, ℤ, pos, ◌≤ℤ◌, Option, ltb_ℤ, Bool-cases, refl, ◌∙◌,
}
use gcp_emulator_pool.Pstest.Pb.{PbSubscription, Code, subscription_res}
use gcp_emulator_pool.Pstest.State.{GServer, success, failure}
use gcp_emulator_pool.Pstest.Subscriptions.{
  create_subscription_body, check_subscription, with_defaults, get_subscription_body,
  with_subscription, add_subscription, find_subscription, new_subscription, check_ack_deadline,
  check_mrd, or_else, max_message_retention_duration,
}

-- An acknowledgement deadline between the minimum of the server and ten minutes, and a retention, if
-- there is one, between ten minutes and seven days.
abbrev pub IsRetention : Option ℤ → Type 0
IsRetention none = Unit
IsRetention (some d) = (pos 600000000000 ≤ℤ d) × (d ≤ℤ pos 604800000000000)

abbrev pub IsWithin : ℤ → PbSubscription → Type 0
IsWithin min_secs ps =
    ((min_secs ≤ℤ ps.ack_deadline_seconds) × (ps.ack_deadline_seconds ≤ℤ pos 600))
    × IsRetention ps.message_retention_duration

-- A request that CreateSubscription should accept.
abbrev pub IsAccepted : PbSubscription → GServer → Type 0
IsAccepted ps s =
    (ps.name ≢ [])
    × (lookup str_discrete ps.name s.subs ≡ none)
    × (ps.topic ≢ [])
    × ((top : ℕ) × (lookup str_discrete ps.topic s.topics ≡ some top))
    × IsWithin s.min_ack_deadline_secs ps

-- The subscription of a request: it keeps messages for seven days if nothing else is said.
abbrev pub filled : PbSubscription → PbSubscription
filled ps = record ps {
  message_retention_duration = elim ps.message_retention_duration [
    | none ↦ some (pos 604800000000000)
    | some d ↦ some d
  ];
  push_config = elim ps.push_config [ none ↦ some [] | some c ↦ some c ];
}

filled-with_defaults : (ps : PbSubscription) → with_defaults ps ≡ filled ps
unfolding with_defaults
filled-with_defaults ps = elim (Option-cases ps.message_retention_duration) [
  | inl a ↦ elim (Option-cases ps.push_config) [
    | inl b ↦ rw (a, b) refl
    | inr (c, b) ↦ rw (a, b) refl
  ]
  | inr (d, a) ↦ elim (Option-cases ps.push_config) [
    | inl b ↦ rw (a, b) refl
    | inr (c, b) ↦ rw (a, b) refl
  ]
]

-- The test of a number against two limits.
between :
    (lo hi n : ℤ)
    → (((ltb_ℤ n lo || ltb_ℤ hi n) ≡ false) × ((lo ≤ℤ n) × (n ≤ℤ hi)))
      ⊎ (((ltb_ℤ n lo || ltb_ℤ hi n) ≡ true) × (¬ ((lo ≤ℤ n) × (n ≤ℤ hi))))
between lo hi n = elim (Bool-cases (ltb_ℤ n lo || ltb_ℤ hi n)) [
  | inl out ↦ inr (out, λ (a, b). ground arith)
  | inr inside ↦ inl (inside, (ground arith, ground arith))
]

check_deadline :
    (min_secs ads : ℤ)
    → ((check_ack_deadline min_secs ads ≡ none) × ((min_secs ≤ℤ ads) × (ads ≤ℤ pos 600)))
      ⊎ ((check_ack_deadline min_secs ads ≡ some Code.unknown)
          × (¬ ((min_secs ≤ℤ ads) × (ads ≤ℤ pos 600))))
unfolding check_ack_deadline
check_deadline min_secs ads = elim (between min_secs (pos 600) ads) [
  | inl (e, limits) ↦ inl (rw e refl, limits)
  | inr (e, out) ↦ inr (rw e refl, out)
]

check-IsRetention :
    (d : Option ℤ)
    → ((check_mrd (or_else d max_message_retention_duration) ≡ none) × IsRetention d)
      ⊎ ((check_mrd (or_else d max_message_retention_duration) ≡ some Code.invalid_argument)
          × (¬ IsRetention d))
unfolding check_mrd
check-IsRetention none = inl (refl, tt)
check-IsRetention (some d) = elim (between (pos 600000000000) (pos 604800000000000) d) [
  | inl (e, limits) ↦ inl (rw e refl, limits)
  | inr (e, out) ↦ inr (rw e refl, out)
]

check_subscription-IsWithin :
    (min_secs : ℤ) (ps : PbSubscription)
    → ((check_subscription min_secs ps ≡ none) × IsWithin min_secs ps)
      ⊎ ((code : Code) × (check_subscription min_secs ps ≡ some code) × (¬ IsWithin min_secs ps))
unfolding check_subscription with_defaults
check_subscription-IsWithin min_secs ps = elim (check_deadline min_secs ps.ack_deadline_seconds) [
  | inr (refused, out) ↦
      inr (Code.unknown, rw (refused, check_subscription) refl, λ limits. out limits.0)
  | inl (passed, ads) ↦ elim (check-IsRetention ps.message_retention_duration) [
    | inr (refused, out) ↦ inr (
      Code.invalid_argument,
      rw (passed, refused, check_subscription) refl,
      λ limits. out limits.1,
    )
    | inl (fine, mrd) ↦ inl (rw (passed, fine, check_subscription) refl, (ads, mrd))
  ]
]

create_subscription_body_accepts :
    (ps : PbSubscription) (top : ℕ) (s : GServer)
    → ps.name ≢ []
    → lookup str_discrete ps.name s.subs ≡ none
    → ps.topic ≢ []
    → lookup str_discrete ps.topic s.topics ≡ some top
    → check_subscription s.min_ack_deadline_secs ps ≡ none
    → create_subscription_body ps s
      ≡ (success (subscription_res (with_defaults ps)), add_subscription top (with_defaults ps) s)
unfolding create_subscription_body
create_subscription_body_accepts ps top s named new of_topic there fine = ground arith

-- A request is refused, or passes the checks one after the other.
create_subscription_body_inv :
    (ps : PbSubscription) (s : GServer)
    → (IsAccepted ps s
        × ((top : ℕ) × (create_subscription_body ps s ≡ (
          success (subscription_res (with_defaults ps)),
          add_subscription top (with_defaults ps) s,
        ))))
      ⊎ ((¬ IsAccepted ps s)
          × ((code : Code) × (create_subscription_body ps s ≡ (failure code, s))))
unfolding create_subscription_body
create_subscription_body_inv ps s = elim (str_discrete ps.name []) [
  | yes nameless ↦ inr ((λ ok. ok.0 nameless), (Code.invalid_argument, ground (arith, nameless)))
  | no named ↦ elim (Option-cases (lookup str_discrete ps.name s.subs)) [
    | inr (r, taken) ↦
        inr ((λ ok. absurd (cc)), (Code.already_exists, ground (arith, named, taken)))
    | inl new ↦ elim (str_discrete ps.topic []) [
      | yes bare ↦
          inr ((λ ok. ok.2 bare), (Code.invalid_argument, ground (arith, named, new, bare)))
      | no of_topic ↦ elim (Option-cases (lookup str_discrete ps.topic s.topics)) [
        | inl gone ↦ inr (
          (λ ok. let (t, here) = ok.3 in absurd (cc)),
          (Code.not_found, ground (arith, named, new, of_topic, gone)),
        )
        | inr (top, there) ↦ elim (check_subscription-IsWithin s.min_ack_deadline_secs ps) [
          | inl (fine, limits) ↦ inl (
            (named, new, of_topic, (top, there), limits),
            (top, create_subscription_body_accepts ps top s named new of_topic there fine),
          )
          | inr (code, wrong, out) ↦
              inr ((λ ok. out ok.4), (code, ground (arith, named, new, of_topic, there, wrong)))
        ]
      ]
    ]
  ]
]

add_subscription-get :
    (top : ℕ) (ps : PbSubscription) (s : GServer)
    → ps.name ≢ []
    → (with_subscription ps.name get_subscription_body (add_subscription top ps s)).0
      ≡ success (subscription_res ps)
unfolding add_subscription with_subscription find_subscription get_subscription_body
    new_subscription
add_subscription-get top ps s named = ground (
  arith,
  lookup-insert str_discrete ps.name ps.name s.next_sub s.subs,
  update_self s.sub_heap s.next_sub (new_subscription top ps),
)

-- CreateSubscription accepts exactly a request with a new name that is not empty, with the name of a
-- topic that is there, with an acknowledgement deadline between the minimum and ten minutes, and with
-- a retention between ten minutes and seven days or none. For it it answers the request with the
-- retention and the push configuration filled in, as does GetSubscription after it. For any other it
-- fails, and leaves the server as it was.
pub create_subscription_body_outcome :
    (ps : PbSubscription) (s : GServer)
    → (IsAccepted ps s
        × ((create_subscription_body ps s).0 ≡ success (subscription_res (filled ps)))
        × ((with_subscription ps.name get_subscription_body (create_subscription_body ps s).1).0
            ≡ success (subscription_res (filled ps))))
      ⊎ ((¬ IsAccepted ps s)
          × ((code : Code) × (create_subscription_body ps s ≡ (failure code, s))))
unfolding with_defaults
create_subscription_body_outcome ps s = elim (create_subscription_body_inv ps s) [
  | inl (ok, (top, e)) ↦
      let same : with_defaults ps ≡ filled ps = filled-with_defaults ps in
      inl (
        ok,
        ap (λ x. x.0) e ∙ ap (λ x. success (subscription_res x)) same,
        rw e (add_subscription-get top (with_defaults ps) s ok.0)
            ∙ ap (λ x. success (subscription_res x)) same,
      )
  | inr fails ↦ inr fails
]
