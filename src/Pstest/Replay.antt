-- ===== src/Pstest/Replay.antt =====
-- What Seek leaves, and what the next Pull or delivery makes of it
-- (gcpapi/pubsub/pstest/fake.go).
use gcp_emulator_pool.Common.{
  ℕ, ◌≡◌, refl, ap, subst, ◌∙◌, none, some, List, [], ◌∷◌, arith, Str, str_discrete, inl, inr, ℤ,
  lookup, insert, lookup-insert, update_self, update_field, get_elem?, zero, suc, Bool-cases, ltb_ℤ,
  false, if_pos, if_neg,
}
use gcp_emulator_pool.Pstest.State.{Message, SubMessage, GServer}
use gcp_emulator_pool.Pstest.Delivery.{maintain_messages, pull_subscription}
use gcp_emulator_pool.Pstest.Seeking.{keep_since, count_dropped, replay, replay_since, seek_body}
use gcp_emulator_pool.Pstest.Streams.{Meanwhile, deliver}

-- A message whose `proto.Message` is nil.
abbrev IsBare : Str → List (Str × SubMessage) → Type 0
IsBare id ms = (m : SubMessage) × (lookup str_discrete id ms ≡ some m) × (m.proto.message ≡ none)

maintain_messages-IsBare :
    (now : ℤ) (id : Str) (ms : List (Str × SubMessage))
    → IsBare id ms
    → maintain_messages now ms ≡ none
unfolding maintain_messages lookup
maintain_messages-IsBare now id [] (m, here, bare) = absurd (cc)
maintain_messages-IsBare now id ((k, m') ∷ ms) (m, here, bare) = elim (str_discrete k id) [
  | yes e ↦
      let same : m' ≡ m = ground arith in
      let nil : m'.proto.message ≡ none = ap (λ x. x.proto.message) same ∙ bare in
      ground (arith, nil)
  | no ne ↦ ground (arith, maintain_messages-IsBare now id ms (m, ground arith, bare))
]

replay-IsBare :
    (id : Str) (r : ℕ) (x : Message) (ms : List (Str × SubMessage))
    → IsBare id ms
    → IsBare id (insert str_discrete x.id (replay r x) ms)
replay-IsBare id r x ms (m, here, bare) = elim (str_discrete x.id id) [
  | yes e ↦ (
    replay r x,
    lookup-insert str_discrete x.id id (replay r x) ms
        ∙ if_pos (str_discrete x.id id) e (some (replay r x)) (lookup str_discrete id ms),
    refl,
  )
  | no ne ↦ (
    m,
    lookup-insert str_discrete x.id id (replay r x) ms
        ∙ if_neg (str_discrete x.id id) ne (some (replay r x)) (lookup str_discrete id ms)
        ∙ here,
    bare,
  )
]

replay_since_keeps :
    (target : ℤ) (heap : ℕ → Message) (rs : List ℕ) (id : Str) (ms : List (Str × SubMessage))
    → IsBare id ms
    → IsBare id (replay_since target heap rs ms)
unfolding replay_since
replay_since_keeps target heap [] id ms b = b
replay_since_keeps target heap (r ∷ rs) id ms b =
    replay_since_keeps target heap rs id _ (elim (Bool-cases (ltb_ℤ (heap r).publish_time target)) [
      | inl old ↦ rw old b
      | inr new ↦ rw new (replay-IsBare id r (heap r) ms b)
    ])

-- A published message that is not older than the target comes back bare.
replay_since-IsBare :
    (target : ℤ) (heap : ℕ → Message) (rs : List ℕ) (i : ℕ) (r : ℕ) (ms : List (Str × SubMessage))
    → get_elem? rs i ≡ some r
    → ltb_ℤ (heap r).publish_time target ≡ false
    → IsBare (heap r).id (replay_since target heap rs ms)
unfolding replay_since
replay_since-IsBare target heap [] i r ms e new = absurd (cc)
replay_since-IsBare target heap (r' ∷ rs) zero r ms e new =
    let same : r' ≡ r = ground arith in
    let fresh : ltb_ℤ (heap r').publish_time target ≡ false =
      ap (λ x. ltb_ℤ (heap x).publish_time target) same ∙ new in
    subst (λ x. IsBare (heap x).id (replay_since target heap (r' ∷ rs) ms)) same
      (replay_since_keeps target heap rs (heap r').id _ (
        rw fresh (
          replay r' (heap r'),
          lookup-insert str_discrete (heap r').id (heap r').id (replay r' (heap r')) ms
              ∙ if_pos (str_discrete (heap r').id (heap r').id) refl (some (replay r' (heap r')))
                  (lookup str_discrete (heap r').id ms),
          refl,
        )))
replay_since-IsBare target heap (r' ∷ rs) (suc i) r ms e new =
    replay_since-IsBare target heap rs i r _ e new

count_dropped_same :
    (target : ℤ) (ms : List (Str × SubMessage)) (heap : ℕ → Message) (q : ℕ)
    → (count_dropped target ms heap q).publish_time ≡ (heap q).publish_time
unfolding count_dropped
count_dropped_same target [] heap q = refl
count_dropped_same target ((id, m) ∷ ms) heap q =
    count_dropped_same target ms _ q ∙ (elim (Bool-cases (ltb_ℤ m.publish_time target)) [
      | inl old ↦ rw old (update_field (λ x. x.publish_time) heap m.counters _ refl q)
      | inr new ↦ rw new refl
    ])

-- After a Seek to a time that is not later than the publish time of some message in the log of the
-- server, the next pull of that subscription panics, and so does its next delivery to streams.
pub seek_breaks_pull :
    (target : ℤ) (r : ℕ) (s : GServer) (i q : ℕ)
    → get_elem? s.msgs i ≡ some q
    → ltb_ℤ (s.message_heap q).publish_time target ≡ false
    → ((now : ℤ) (max : ℕ) → pull_subscription now max r (seek_body target r s).1 ≡ none)
      × ((meanwhile : Meanwhile) (now : ℤ)
          → deliver meanwhile now r (seek_body target r s).1 ≡ none)
unfolding seek_body pull_subscription deliver
seek_breaks_pull target r s i q logged new =
    let heap = count_dropped target (s.sub_heap r).msgs s.message_heap in
    let ms = replay_since target heap s.msgs (keep_since target (s.sub_heap r).msgs) in
    let bare : IsBare (heap q).id ms = replay_since-IsBare target heap s.msgs i q _ logged (
      ap (λ t. ltb_ℤ t target) (count_dropped_same target (s.sub_heap r).msgs s.message_heap q)
      ∙ new) in
    let s' = (seek_body target r s).1 in
    let at : (s'.sub_heap r).msgs ≡ ms = ap (λ x. x.msgs) (update_self s.sub_heap r _) in
    let broken : (now : ℤ) → maintain_messages now (s'.sub_heap r).msgs ≡ none =
      λ now. ap (maintain_messages now) at ∙ maintain_messages-IsBare now _ ms bare in
    (λ now max. ground (arith, broken now), λ meanwhile now. ground (arith, broken now))
