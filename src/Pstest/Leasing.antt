-- ===== src/Pstest/Leasing.antt =====
-- What a Pull hands out, and what the upkeep of the messages leaves: `pull` and `maintainMessages`
-- of `subscription` (gcpapi/pubsub/pstest/fake.go).
use gcp_emulator_pool.Common.{
  ite, ℕ_discrete, ℕ, zero, suc, ◌-◌, ◌<◌, ◌≡◌, ◌≢◌, refl, ap, ◌∙◌, Option, none, some, List, [],
  ◌∷◌, arith, Str, str_discrete, inl, inr, ℤ, ◌+ℤ◌, lookup, IsMap, keys, update, update_self,
  Option-cases, if◌then◌else◌, take, drop, pos, ◌*◌, ◌-ℤ◌, ltb_ℤ, ℤ-discrete, Bool-cases,
}
use gcp_emulator_pool.Pstest.Pb.{PubsubMessage, ReceivedMessage}
use gcp_emulator_pool.Pstest.State.{SubMessage, zero_time, GServer}
use gcp_emulator_pool.Pstest.Delivery.{
  is_outstanding, expire, is_stale, as_time, maintain_messages, pull_entries, pull_subscription,
}
use gcp_emulator_pool.Pstest.Invariant.Inbox.{maintain_cons}

-- The publish time in the message itself; without one it is 1970, which lies 62135596800 seconds
-- behind Go's zero time.
abbrev pub published : PubsubMessage → ℤ
published pm = elim pm.publish_time [ none ↦ pos (62135596800 * 1000000000) | some t ↦ t ]

-- What the upkeep at `now` should leave of an entry. While its deadline is still to come, or is now,
-- a message stays as it is. Any other is available: it is dropped once it was published more than
-- ten minutes ago, and has no deadline before that.
unfoldable pub maintained : ℤ → Option SubMessage → Option SubMessage
maintained now none = none
maintained now (some m) = elim m.proto.message [
  | none ↦ none
  | some pm ↦
      ite (ℤ-discrete m.ack_deadline (pos 0))
        (if ltb_ℤ (pos 600000000000) (now -ℤ published pm) then none else some m)
        (if ltb_ℤ m.ack_deadline now
          then if ltb_ℤ (pos 600000000000) (now -ℤ published pm)
            then none
            else some (record m { ack_deadline = pos 0 })
          else some m)
]

published-as_time : (pm : PubsubMessage) → published pm ≡ as_time pm.publish_time
published-as_time pm = elim (Option-cases pm.publish_time) [
  | inl missing ↦ rw missing refl
  | inr (t, there) ↦ rw there refl
]

maintained-lem :
    (now : ℤ) (m : SubMessage) {pm : PubsubMessage}
    → m.proto.message ≡ some pm
    → maintained now (some m) ≡ (
        if is_stale now (as_time pm.publish_time) (expire now m) then none else some (expire now m))
unfolding maintained is_stale expire
maintained-lem now m {pm} full =
    rw (full, published-as_time pm)
      (elim (ℤ-discrete m.ack_deadline (pos 0)) [
        | yes free ↦ ground (arith, free)
        | no leased ↦ elim (Bool-cases (ltb_ℤ m.ack_deadline now)) [
          | inl past ↦ ground (arith, leased, past)
          | inr ahead ↦ ground (arith, leased, ahead)
        ]
      ])

-- When `maintainMessages` does not panic, it leaves a message as it is while its deadline has not
-- passed. Any other message is available: it is dropped if its publish time is more than ten minutes
-- ago, and else it is left without a deadline. Nothing else of a message changes.
pub lookup-maintain_messages :
    (now : ℤ) (ms : List (Str × SubMessage)) {ms' : List (Str × SubMessage)}
    → IsMap str_discrete ms
    → maintain_messages now ms ≡ some ms'
    → (id : Str) → lookup str_discrete id ms' ≡ maintained now (lookup str_discrete id ms)
unfolding maintain_messages lookup maintained
lookup-maintain_messages now [] u e id = ground arith
lookup-maintain_messages now ((k, m) ∷ ms) {ms'} u e id =
    let (pm, rest, full, er, shape) = maintain_cons now k m ms e in
    let ih = lookup-maintain_messages now ms u.1 er in
    ground (arith, ih id, ih k, maintained-lem now m full)

-- The messages that a Pull may hand out, in the order of the loop.
unfoldable pub available : List (Str × SubMessage) → List ReceivedMessage
available [] = []
available ((id, m) ∷ ms) = if is_outstanding m then available ms else m.proto ∷ available ms

pull_entries-keys :
    (left : ℕ) (deadline : ℤ) (ms : List (Str × SubMessage))
    → keys str_discrete (pull_entries left deadline ms).entries ≡ keys str_discrete ms
unfolding pull_entries
pull_entries-keys left deadline [] = refl
pull_entries-keys left deadline ((id, m) ∷ ms) =
    ground (arith, pull_entries-keys left deadline ms, pull_entries-keys (left - 1) deadline ms)

pull_entries-protos :
    (left : ℕ) (deadline : ℤ) (ms : List (Str × SubMessage))
    → 0 < left
    → (pull_entries left deadline ms).protos ≡ take left (available ms)
unfolding pull_entries available
pull_entries-protos zero deadline ms h = elim h [ ]
pull_entries-protos (suc n) deadline [] h = refl
pull_entries-protos (suc n) deadline ((id, m) ∷ ms) h =
    ground (arith, pull_entries-protos (suc n) deadline ms h, pull_entries-protos n deadline ms)

pull_entries-available :
    (left : ℕ) (deadline : ℤ) (ms : List (Str × SubMessage))
    → deadline ≢ zero_time
    → 0 < left
    → available (pull_entries left deadline ms).entries ≡ drop left (available ms)
unfolding pull_entries available
pull_entries-available zero deadline ms d h = elim h [ ]
pull_entries-available (suc n) deadline [] d h = refl
pull_entries-available (suc n) deadline ((id, m) ∷ ms) d h =
    ground (
      arith,
      pull_entries-available (suc n) deadline ms d h,
      pull_entries-available n deadline ms d,
    )

-- A pull that does not panic, for a positive number of messages and a new deadline other than the
-- zero time, first keeps up the messages of the subscription. Then it hands out the first `max` of
-- the available ones; those behind them are the ones available afterwards, so a message handed out
-- is not. The ids that the subscription holds after the upkeep stay the same, in number and order,
-- and no other subscription changes.
pub pull_subscription_leases :
    (now : ℤ) (max r : ℕ) (s : GServer) {protos : List ReceivedMessage} {s' : GServer}
    → 0 < max
    → now +ℤ (s.sub_heap r).ack_timeout ≢ zero_time
    → pull_subscription now max r s ≡ some (protos, s')
    → (ms : List (Str × SubMessage)) × (maintain_messages now (s.sub_heap r).msgs ≡ some ms)
      × (protos ≡ take max (available ms))
      × (available (s'.sub_heap r).msgs ≡ drop max (available ms))
      × (keys str_discrete (s'.sub_heap r).msgs ≡ keys str_discrete ms)
      × ((q : ℕ) → s'.sub_heap q ≡ ite (ℕ_discrete r q) (s'.sub_heap r) (s.sub_heap q))
unfolding pull_subscription update
pull_subscription_leases now max r s {protos} {s'} h d e =
    elim (Option-cases (maintain_messages now (s.sub_heap r).msgs)) [
      | inl broken ↦ absurd (ground (arith, broken))
      | inr (ms, kept) ↦
          let deadline = now +ℤ (s.sub_heap r).ack_timeout in
          let p = pull_entries max deadline ms in
          let heap = update s.sub_heap r (record (s.sub_heap r) { msgs = p.entries }) in
          let same : s'.sub_heap ≡ heap = ground (arith, kept) in
          let at : (s'.sub_heap r).msgs ≡ p.entries =
            ap (λ f. (f r).msgs) same ∙ ap (λ x. x.msgs) (update_self s.sub_heap r _) in
          (
            ms,
            kept,
            (let got : protos ≡ p.protos = ground (arith, kept) in
                got ∙ pull_entries-protos max deadline ms h),
            ap available at ∙ pull_entries-available max deadline ms d h,
            ap (keys str_discrete) at ∙ pull_entries-keys max deadline ms,
            λ q.
                ground
                  (arith, ap (λ f. f q) same, ap (λ f. f r) same, ap s'.sub_heap {x = r} {y = q}),
          )
    ]
