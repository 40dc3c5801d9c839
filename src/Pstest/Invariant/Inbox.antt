-- ===== src/Pstest/Invariant/Inbox.antt =====
-- The messages in the hands of one subscription: each under its id, once, and with the counters of
-- the message of that id. The loops over them keep that so.
use gcp_emulator_pool.Common.{
  map, length, ℕ, ◌-◌, ◌<◌, ◌≤◌, ◌≡◌, refl, sym, none, some, List, [], ◌∷◌, arith, Str,
  str_discrete, inl, inr, ℤ, lookup, insert, delete, IsMap, All, insert-IsMap, delete-IsMap,
  All-insert, All-delete, Option-cases, Bool-cases, leb, ltb_ℤ, if◌then◌else◌, subst,
}
use gcp_emulator_pool.Pstest.Pb.{PubsubMessage}
use gcp_emulator_pool.Pstest.State.{Message, SubMessage, Stream}
use gcp_emulator_pool.Pstest.Publishing.{message_id}
use gcp_emulator_pool.Pstest.Delivery.{
  is_outstanding, expire, is_stale, as_time, maintain_messages, pull_entries,
}
use gcp_emulator_pool.Pstest.Seeking.{keep_since, replay, replay_since}
use gcp_emulator_pool.Pstest.Streams.{
  Meanwhile, deliver_entries, try_deliver_message, start_of, next_cur,
}

-- With messages below `n` allocated.
abbrev pub Held : ℕ → Str × SubMessage → Type 0
Held n (id, m) = (m.counters < n) × (id ≡ message_id m.counters) × (m.proto.ack_id ≡ id)

pub record IsInbox (n : ℕ) (ms : List (Str × SubMessage)) : Type 0 where
  pub held : All (Held n) ms
  pub unique : IsMap str_discrete ms

-- No entry of `ms` comes from outside `old`.
abbrev pub NoNew : List (Str × SubMessage) → List (Str × SubMessage) → Type 0
NoNew old ms = (k : Str) → lookup str_discrete k old ≡ none → lookup str_discrete k ms ≡ none

pub Held-mono :
    (n n' : ℕ) → n ≤ n' → (ms : List (Str × SubMessage)) → All (Held n) ms → All (Held n') ms
Held-mono n n' h [] a = tt
Held-mono n n' h ((id, m) ∷ ms) a = ((omega arith, a.0.1, a.0.2), Held-mono n n' h ms a.1)

pub insert-IsInbox :
    (n : ℕ) (id : Str) (m : SubMessage) (ms : List (Str × SubMessage))
    → Held n (id, m)
    → IsInbox n ms
    → IsInbox n (insert str_discrete id m ms)
insert-IsInbox n id m ms p b = record {
  held = All-insert str_discrete (Held n) id m ms p b.held;
  unique = insert-IsMap str_discrete id m ms b.unique;
}

pub delete-IsInbox :
    (n : ℕ) (id : Str) (ms : List (Str × SubMessage))
    → IsInbox n ms
    → IsInbox n (delete str_discrete id ms)
delete-IsInbox n id ms b = record {
  held = All-delete str_discrete (Held n) id ms b.held;
  unique = delete-IsMap str_discrete id ms b.unique;
}

-- A loop that keeps the entries apart, changed or not, or drops them.
pub data Sweeps : List (Str × SubMessage) → List (Str × SubMessage) → Type 0 where
  stop : (ms : List (Str × SubMessage)) → Sweeps ms ms
  keep :
      (id : Str) (m m' : SubMessage) {ms ms' : List (Str × SubMessage)}
      → m'.counters ≡ m.counters
      → m'.proto ≡ m.proto
      → Sweeps ms ms'
      → Sweeps ((id, m) ∷ ms) ((id, m') ∷ ms')
  drop :
      (id : Str) (m : SubMessage) {ms ms' : List (Str × SubMessage)}
      → Sweeps ms ms'
      → Sweeps ((id, m) ∷ ms) ms'

Sweeps-NoNew : {ms ms' : List (Str × SubMessage)} → Sweeps ms ms' → NoNew ms ms'
unfolding lookup
Sweeps-NoNew (stop ms) k h = h
Sweeps-NoNew (keep id m m' c p s) k h = ground (arith, Sweeps-NoNew s k)
Sweeps-NoNew (drop id m s) k h = ground (arith, Sweeps-NoNew s k)

Sweeps-held :
    (n : ℕ) {ms ms' : List (Str × SubMessage)} → Sweeps ms ms' → All (Held n) ms → All (Held n) ms'
Sweeps-held n (stop ms) a = a
Sweeps-held n (keep id m m' c p s) a =
    ((omega (arith, c), ground (arith, a.0.1, c), ground (arith, a.0.2, p)), Sweeps-held n s a.1)
Sweeps-held n (drop id m s) a = Sweeps-held n s a.1

Sweeps-unique :
    {ms ms' : List (Str × SubMessage)}
    → Sweeps ms ms'
    → IsMap str_discrete ms
    → IsMap str_discrete ms'
Sweeps-unique (stop ms) u = u
Sweeps-unique (keep id m m' c p s) u = (Sweeps-NoNew s id u.0, Sweeps-unique s u.1)
Sweeps-unique (drop id m s) u = Sweeps-unique s u.1

pub Sweeps-IsInbox :
    {n : ℕ} {ms ms' : List (Str × SubMessage)} → Sweeps ms ms' → IsInbox n ms → IsInbox n ms'
Sweeps-IsInbox {n} s b = record { held = Sweeps-held n s b.held; unique = Sweeps-unique s b.unique }

expire_same :
    (now : ℤ) (m : SubMessage)
    → ((expire now m).counters ≡ m.counters) × ((expire now m).proto ≡ m.proto)
unfolding expire
expire_same now m = ground arith

-- One round of `maintainMessages` that does not panic.
pub maintain_cons :
    (now : ℤ) (id : Str) (m : SubMessage) (ms : List (Str × SubMessage))
    {ms' : List (Str × SubMessage)}
    → maintain_messages now ((id, m) ∷ ms) ≡ some ms'
    → (pm : PubsubMessage) × (rest : List (Str × SubMessage)) × (m.proto.message ≡ some pm)
      × (maintain_messages now ms ≡ some rest)
      × (ms' ≡ (
          if is_stale now (as_time pm.publish_time) (expire now m)
          then rest
          else (id, expire now m) ∷ rest))
unfolding maintain_messages
maintain_cons now id m ms e = ground arith

pub maintain_messages-Sweeps :
    (now : ℤ) (ms : List (Str × SubMessage)) {ms' : List (Str × SubMessage)}
    → maintain_messages now ms ≡ some ms'
    → Sweeps ms ms'
unfolding maintain_messages
maintain_messages-Sweeps now [] {ms'} e = subst (Sweeps []) (ground arith) (stop [])
maintain_messages-Sweeps now ((id, m) ∷ ms) {ms'} e =
    let (pm, rest, _, er, shape) = maintain_cons now id m ms e in
    let ih = maintain_messages-Sweeps now ms er in
    let (c, p) = expire_same now m in
    subst (Sweeps ((id, m) ∷ ms)) (sym shape)
      (elim (Bool-cases (is_stale now (as_time pm.publish_time) (expire now m))) [
        | inl stale ↦ rw stale (drop id m ih)
        | inr fresh ↦ rw fresh (keep id m (expire now m) c p ih)
      ])

pub pull_entries-Sweeps :
    (left : ℕ) (deadline : ℤ) (ms : List (Str × SubMessage))
    → Sweeps ms (pull_entries left deadline ms).entries
unfolding pull_entries
pull_entries-Sweeps left deadline [] = stop []
pull_entries-Sweeps left deadline ((id, m) ∷ ms) = elim (Bool-cases (is_outstanding m)) [
  | inl out ↦ rw out (keep id m m refl refl (pull_entries-Sweeps left deadline ms))
  | inr free ↦ rw free (elim (Bool-cases (leb left 1)) [
    | inl last ↦ rw last (keep id m _ refl refl (stop ms))
    | inr more ↦ rw more (keep id m _ refl refl (pull_entries-Sweeps (left - 1) deadline ms))
  ])
]

pub keep_since-Sweeps :
    (target : ℤ) (ms : List (Str × SubMessage)) → Sweeps ms (keep_since target ms)
unfolding keep_since
keep_since-Sweeps target [] = stop []
keep_since-Sweeps target ((id, m) ∷ ms) = elim (Bool-cases (ltb_ℤ m.publish_time target)) [
  | inl old ↦ rw old (drop id m (keep_since-Sweeps target ms))
  | inr new ↦ rw new (keep id m m refl refl (keep_since-Sweeps target ms))
]

pub deliver_entries-Sweeps :
    (meanwhile : Meanwhile) (now : ℤ) (cur_index : ℕ) (sts : List Stream)
    (ms : List (Str × SubMessage))
    → Sweeps ms (deliver_entries meanwhile now cur_index sts ms).entries
unfolding deliver_entries
deliver_entries-Sweeps meanwhile now cur_index sts [] = stop []
deliver_entries-Sweeps meanwhile now cur_index sts0 ((id, m) ∷ ms) =
    elim (Bool-cases (is_outstanding m)) [
      | inl out ↦
          rw (out, deliver_entries)
            (keep id m m refl refl (
              deliver_entries-Sweeps meanwhile now cur_index (map (meanwhile (length ms)) sts0) ms))
      | inr free ↦
          let t =
            try_deliver_message m.proto (start_of m.stream_index cur_index)
              (map (meanwhile (length ms)) sts0) in
          rw (free, deliver_entries)
            (elim (Option-cases t.taker) [
              | inl nobody ↦ rw (nobody, deliver_entries) (stop _)
              | inr ((idx, timeout), taken) ↦
                  rw (taken, deliver_entries)
                    (keep id m _ refl refl (
                      deliver_entries-Sweeps meanwhile now (next_cur m.stream_index cur_index idx)
                        t.streams ms))
            ])
    ]

pub replay_since-IsInbox :
    (n : ℕ) (target : ℤ) (heap : ℕ → Message) (rs : List ℕ) (ms : List (Str × SubMessage))
    → ((r : ℕ) → r < n → (heap r).id ≡ message_id r)
    → All (λ r. r < n) rs
    → IsInbox n ms
    → IsInbox n (replay_since target heap rs ms)
unfolding replay_since
replay_since-IsInbox n target heap [] ms named lt b = b
replay_since-IsInbox n target heap (r ∷ rs) ms named lt b =
    replay_since-IsInbox n target heap rs _ named lt.1
      (elim (Bool-cases (ltb_ℤ (heap r).publish_time target)) [
        | inl old ↦ rw old b
        | inr new ↦
            rw new
              (insert-IsInbox n (heap r).id (replay r (heap r)) ms (lt.0, named r lt.0, refl) b)
      ])
