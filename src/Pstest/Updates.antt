-- ===== src/Pstest/Updates.antt =====
-- What UpdateSubscription changes (gcpapi/pubsub/pstest/fake.go).
pub mod Fields
use gcp_emulator_pool.Common.{
  ℕ, ◌≡◌, ◌≢◌, ◌⊎◌, refl, ap, ◌∙◌, subst, sym, Bool, true, false, not, ◌||◌, Option, none, some,
  List, [], ◌∷◌, arith, Str, str_discrete, ℕ_discrete, inl, inr, ℤ, pos, update_self, bytes,
  Option-cases, Bool-cases, ltb_ℤ, ite, if◌then◌else◌,
}
use gcp_emulator_pool.Pstest.Pb.{PbSubscription, Code, subscription_res}
use gcp_emulator_pool.Pstest.State.{GServer, success, failure}
use gcp_emulator_pool.Pstest.Subscriptions.{get_subscription_body, check_ack_deadline, check_mrd}
use gcp_emulator_pool.Pstest.Settings.{
  Field, field_of, check_field, set_field, update_paths, update_subscription_body,
  store_subscription,
}
use gcp_emulator_pool.Pstest.Updates.Fields.{
  all_allowed, updated, Treats, takes, refuses, treats, is_allowed,
}
use gcp_emulator_pool.Pstest.Acknowledgement.{names_id}

update_paths-updated :
    (min_secs : ℤ) (req : PbSubscription) (paths : List Str) (p : PbSubscription)
    → ((all_allowed min_secs req paths ≡ true)
        × (update_paths min_secs req paths p ≡ (updated req paths p, none)))
      ⊎ ((all_allowed min_secs req paths ≡ false)
          × ((code : Code) × ((update_paths min_secs req paths p).1 ≡ some code)))
unfolding all_allowed update_paths names_id
update_paths-updated min_secs req [] p = inl (refl, refl)
update_paths-updated min_secs req (path ∷ paths) p = elim (treats min_secs req path) [
  | refuses code out stops ↦ inr (rw (out, all_allowed) refl, (code, stops paths p))
  | takes f inside known fine same ↦
      elim (update_paths-updated min_secs req paths (set_field req f p)) [
        | inl (all, e) ↦ inl (
          rw (inside, all_allowed) all,
          rw (known, fine, update_paths) (e ∙ ap (λ x. (x, none)) (same paths p)),
        )
        | inr (some_out, (code, stops)) ↦
            inr (rw (inside, all_allowed) some_out, (code, rw (known, fine, update_paths) stops))
      ]
]

store_subscription_done :
    (r : ℕ) (p : PbSubscription) (s : GServer)
    → ((store_subscription r (p, none) s).0 ≡ success (subscription_res p))
      × ((get_subscription_body r (store_subscription r (p, none) s).1).0
          ≡ success (subscription_res p))
unfolding store_subscription get_subscription_body
store_subscription_done r p s =
    (refl, ap (λ x. success (subscription_res x.proto)) (update_self s.sub_heap r _))

store_subscription_refused :
    (r : ℕ) (result : PbSubscription × Option Code) (code : Code) (s : GServer)
    → result.1 ≡ some code
    → (store_subscription r result s).0 ≡ failure code
unfolding store_subscription
store_subscription_refused r (p, err) code s e = ground arith

-- UpdateSubscription succeeds exactly if every path of the mask is the name of a field that may be
-- updated, and the deadline and the retention of the request, if the mask names them, are within
-- their limits. Then exactly the fields that the mask names have the values of the request, in the
-- answer and in what GetSubscription answers afterwards. Else it fails.
pub update_subscription_body_outcome :
    (req : PbSubscription) (paths : List Str) (r : ℕ) (s : GServer)
    → ((all_allowed s.min_ack_deadline_secs req paths ≡ true)
        × ((update_subscription_body req (some paths) r s).0
            ≡ success (subscription_res (updated req paths (s.sub_heap r).proto)))
        × ((get_subscription_body r (update_subscription_body req (some paths) r s).1).0
            ≡ success (subscription_res (updated req paths (s.sub_heap r).proto))))
      ⊎ ((all_allowed s.min_ack_deadline_secs req paths ≡ false)
          × ((code : Code) × ((update_subscription_body req (some paths) r s).0 ≡ failure code)))
unfolding update_subscription_body
update_subscription_body_outcome req paths r s =
    let p = (s.sub_heap r).proto in
    elim (update_paths-updated s.min_ack_deadline_secs req paths p) [
      | inl (all, e) ↦
          let (answer, stored) = store_subscription_done r (updated req paths p) s in
          inl (all, rw e answer, rw e stored)
      | inr (out, (code, stops)) ↦ inr (out, (code, store_subscription_refused r _ code s stops))
    ]
