-- ===== src/Pstest/Dispatch.antt =====
-- Which stream takes a message: `tryDeliverMessage` and `deliver`
-- (gcpapi/pubsub/pstest/fake.go).
use gcp_emulator_pool.Common.{
  ℕ, zero, suc, ◌+◌, ◌%◌, ◌≤◌, ◌<◌, ◌≡◌, refl, sym, ap, ◌∙◌, ◌⊎◌, subst, none, some, List, [], ◌∷◌,
  arith, Str, inl, inr, ℤ, pos, ◌+ℤ◌, Option-cases, Bool-cases, ltb, length, get_elem?, false, true,
  ◌++◌, map,
}
use gcp_emulator_pool.Pstest.Pb.{ReceivedMessage}
use gcp_emulator_pool.Pstest.State.{SubMessage, Stream}
use gcp_emulator_pool.Pstest.Delivery.{is_outstanding}
use gcp_emulator_pool.Pstest.Streams.{
  delete_stream_at, change_stream_at, Readiness, Meanwhile, readiness, hand_over, Tried,
  try_streams, try_deliver_message, deliver_entries, start_of, next_cur, next_stream_index,
}

-- A stream is one of the list.
abbrev IsOneOf : Stream → List Stream → Type 0
IsOneOf st sts = (j : ℕ) × (get_elem? sts j ≡ some st)

delete_stream_at-IsOneOf :
    (st : Stream) (sts : List Stream) (i : ℕ) → IsOneOf st (delete_stream_at sts i) → IsOneOf st sts
unfolding delete_stream_at
delete_stream_at-IsOneOf st [] i (j, e) = (j, e)
delete_stream_at-IsOneOf st (x ∷ sts) zero (j, e) = (suc j, e)
delete_stream_at-IsOneOf st (x ∷ sts) (suc i) (zero, e) = (zero, e)
delete_stream_at-IsOneOf st (x ∷ sts) (suc i) (suc j, e) =
    let (k, f) = delete_stream_at-IsOneOf st sts i (j, e) in (suc k, f)

delete_stream_at-length :
    (sts : List Stream) (i : ℕ) {st : Stream}
    → get_elem? sts i ≡ some st
    → suc (length (delete_stream_at sts i)) ≡ length sts
unfolding delete_stream_at
delete_stream_at-length [] i e = absurd (cc)
delete_stream_at-length (x ∷ sts) zero e = refl
delete_stream_at-length (x ∷ sts) (suc i) e = ap suc (delete_stream_at-length sts i e)

get_elem?-change_stream_at :
    (f : Stream → Stream) (sts : List Stream) (i : ℕ) {st : Stream}
    → get_elem? sts i ≡ some st
    → get_elem? (change_stream_at f sts i) i ≡ some (f st)
unfolding change_stream_at
get_elem?-change_stream_at f [] i e = absurd (cc)
get_elem?-change_stream_at f (x ∷ sts) zero {st} e =
    let same : x ≡ st = ground arith in ap (λ y. some (f y)) same
get_elem?-change_stream_at f (x ∷ sts) (suc i) e = get_elem?-change_stream_at f sts i e

Readiness-cases :
    (x : Readiness) → (x ≡ Readiness.closed) ⊎ ((x ≡ Readiness.waiting) ⊎ (x ≡ Readiness.busy))
Readiness-cases Readiness.closed = inl refl
Readiness-cases Readiness.waiting = inr (inl refl)
Readiness-cases Readiness.busy = inr (inr refl)

-- What it means that the stream at `idx` took the message: it was open and waited, and has the
-- message at the end of what was sent to it.
abbrev pub Took : ReceivedMessage → List Stream → Tried → ℕ → ℤ → Type 0
Took proto sts t idx timeout =
    (st : Stream) × ((j : ℕ) × (get_elem? sts j ≡ some st))
    × ((st.done ≡ false) × (st.ready ≡ true))
    × (timeout ≡ st.ack_timeout)
    × (get_elem? t.streams idx ≡ some (record st { ready = false; sent = st.sent ++ proto ∷ [] }))

is_waiting :
    (st : Stream) → readiness st ≡ Readiness.waiting → (st.done ≡ false) × (st.ready ≡ true)
is_waiting st h = (ground arith, ground arith)

-- One round: the streams that are left are as they were and nothing took the message, or the round
-- found a stream that is done, waiting or busy.
data Round (fuel : ℕ) (proto : ReceivedMessage) (start i : ℕ) (sts : List Stream)
    : Tried → Type 0 where
  ends :
      length sts ≤ i ⊎ (get_elem? sts ((i + start) % length sts) ≡ none)
      → Round fuel proto start i sts (record { streams = sts; taker = none })
  removes :
      (st : Stream)
      → get_elem? sts ((i + start) % length sts) ≡ some st
      → Round fuel proto start i sts
          (try_streams fuel proto start i (delete_stream_at sts ((i + start) % length sts)))
  gives :
      (st : Stream)
      → get_elem? sts ((i + start) % length sts) ≡ some st
      → readiness st ≡ Readiness.waiting
      → Round fuel proto start i sts (record {
        streams = change_stream_at (hand_over proto) sts ((i + start) % length sts);
        taker = some ((i + start) % length sts, st.ack_timeout);
      })
  goes_on : i < length sts → Round fuel proto start i sts (try_streams fuel proto start (suc i) sts)

try_streams-Round :
    (fuel : ℕ) (proto : ReceivedMessage) (start i : ℕ) (sts : List Stream)
    → Round fuel proto start i sts (try_streams (suc fuel) proto start i sts)
unfolding try_streams
try_streams-Round fuel proto start i sts = elim (Bool-cases (ltb i (length sts))) [
  | inr over ↦ rw over (ends (inl (ground arith)))
  | inl more ↦ elim (Option-cases (get_elem? sts ((i + start) % length sts))) [
    | inl out ↦ rw (more, out, try_streams) (ends (inr out))
    | inr (st, at) ↦ elim (Readiness-cases (readiness st)) [
      | inl closed ↦ rw (more, at, closed, try_streams) (removes st at)
      | inr (inl waiting) ↦ rw (more, at, waiting, try_streams) (gives st at waiting)
      | inr (inr busy) ↦ rw (more, at, busy, try_streams) (goes_on (ground arith))
    ]
  ]
]

Takes : List Stream → ReceivedMessage → Tried → Type 0
Takes sts proto t =
    (idx : ℕ) (timeout : ℤ) → t.taker ≡ some (idx, timeout) → Took proto sts t idx timeout

Round-Takes :
    (fuel : ℕ) (proto : ReceivedMessage) (start i : ℕ) (sts : List Stream) {t : Tried}
    → ((i' : ℕ) (sts' : List Stream) → Takes sts' proto (try_streams fuel proto start i' sts'))
    → Round fuel proto start i sts t
    → Takes sts proto t
unfolding Takes
Round-Takes fuel proto start i sts ih (ends _) idx timeout e = absurd (cc)
Round-Takes fuel proto start i sts ih (removes st at) idx timeout e =
    let k = (i + start) % length sts in
    let (x, one, w, t, h) = ih i (delete_stream_at sts k) idx timeout e in
    (x, delete_stream_at-IsOneOf x sts k one, w, t, h)
Round-Takes fuel proto start i sts ih (gives st at waiting) idx timeout e =
    let k = (i + start) % length sts in
    let a : k ≡ idx = ground arith in
    let b : st.ack_timeout ≡ timeout = ground arith in
    let changed = change_stream_at (hand_over proto) sts k in
    (
      st,
      (k, at),
      is_waiting st waiting,
      sym b,
      subst (λ x. get_elem? changed x ≡ some (hand_over proto st)) a
          (get_elem?-change_stream_at (hand_over proto) sts k at),
    )
Round-Takes fuel proto start i sts ih (goes_on more) idx timeout e = ih (suc i) sts idx timeout e

try_streams-Takes :
    (fuel : ℕ) (proto : ReceivedMessage) (start i : ℕ) (sts : List Stream)
    → Takes sts proto (try_streams fuel proto start i sts)
unfolding Takes try_streams
try_streams-Takes zero proto start i sts idx timeout e = absurd (cc)
try_streams-Takes (suc fuel) proto start i sts idx timeout e =
    Round-Takes fuel proto start i sts (λ i' sts'. try_streams-Takes fuel proto start i' sts')
      (try_streams-Round fuel proto start i sts) idx timeout e

-- When `tryDeliverMessage` says that a message was delivered, it was handed over to a stream of the
-- subscription that was not done and waited for one; the index is where that stream stands now, and
-- the timeout is the stream's own.
pub try_deliver_message-Took :
    (proto : ReceivedMessage) (start : ℕ) (sts : List Stream) {idx : ℕ} {timeout : ℤ}
    → (try_deliver_message proto start sts).taker ≡ some (idx, timeout)
    → Took proto sts (try_deliver_message proto start sts) idx timeout
unfolding try_deliver_message Takes
try_deliver_message-Took proto start sts {idx} {timeout} e =
    try_streams-Takes (length sts) proto start 0 sts idx timeout e

try_streams_over :
    (fuel : ℕ) (proto : ReceivedMessage) (start i : ℕ) (sts : List Stream)
    → length sts ≤ i
    → try_streams fuel proto start i sts ≡ record { streams = sts; taker = none }
unfolding try_streams
try_streams_over zero proto start i sts h = refl
try_streams_over (suc fuel) proto start i sts h =
    let over : ltb i (length sts) ≡ false = ground arith in rw over refl

-- With fuel for a round of each stream that is left, more fuel makes no difference.
try_streams_enough :
    (f g : ℕ) (proto : ReceivedMessage) (start i : ℕ) (sts : List Stream)
    → length sts ≤ i + f
    → length sts ≤ i + g
    → try_streams f proto start i sts ≡ try_streams g proto start i sts
unfolding try_streams
try_streams_enough zero g proto start i sts hf hg =
    sym (try_streams_over g proto start i sts (omega arith))
try_streams_enough (suc f) zero proto start i sts hf hg =
    try_streams_over (suc f) proto start i sts (omega arith)
try_streams_enough (suc f) (suc g) proto start i sts hf hg =
    let k = (i + start) % length sts in
    elim (Bool-cases (ltb i (length sts))) [
      | inr over ↦ rw over refl
      | inl more ↦ elim (Option-cases (get_elem? sts k)) [
        | inl out ↦ rw (more, out) refl
        | inr (st, at) ↦
            let shorter = delete_stream_at-length sts k at in
            let without =
              try_streams_enough f g proto start i (delete_stream_at sts k) (omega arith)
                (omega arith) in
            let onward =
              try_streams_enough f g proto start (suc i) sts (omega arith) (omega arith) in
            rw (more, at)
              (elim (Readiness-cases (readiness st)) [
                | inl closed ↦ rw closed without
                | inr (inl waiting) ↦ rw waiting refl
                | inr (inr busy) ↦ rw busy onward
              ])
      ]
    ]

-- The loop of `tryDeliverMessage` ends after at most one round for each stream: with any larger
-- number of rounds it comes to the same.
pub try_deliver_message_rounds :
    (extra : ℕ) (proto : ReceivedMessage) (start : ℕ) (sts : List Stream)
    → try_streams (length sts + extra) proto start 0 sts ≡ try_deliver_message proto start sts
unfolding try_deliver_message
try_deliver_message_rounds extra proto start sts =
    try_streams_enough (length sts + extra) (length sts) proto start 0 sts (omega arith)
      (omega arith)

try_first :
    (proto : ReceivedMessage) (i : ℕ) (sts : List Stream) {st : Stream}
    → get_elem? sts (i % length sts) ≡ some st
    → readiness st ≡ Readiness.waiting
    → (try_deliver_message proto i sts).taker ≡ some (i % length sts, st.ack_timeout)
unfolding try_deliver_message try_streams
try_first proto i [] at waiting = absurd (cc)
try_first proto i (x ∷ sts) {st} at waiting = ground (arith, at, waiting)

-- A message that was delivered before is tried first at the stream that its `streamIndex` names,
-- among the streams as they are when its turn comes. If that stream waits, it takes the message again, and the `streamIndex` names it once more, not the
-- stream after it.
pub redelivery_stays :
    (meanwhile : Meanwhile) (now : ℤ) (cur_index i : ℕ) (sts : List Stream) (id : Str)
    (m : SubMessage) (ms : List (Str × SubMessage)) {st : Stream}
    → m.stream_index ≡ pos i
    → is_outstanding m ≡ false
    → get_elem? (map (meanwhile (length ms)) sts) (i % length (map (meanwhile (length ms)) sts))
      ≡ some st
    → readiness st ≡ Readiness.waiting
    → (rest : List (Str × SubMessage)) × ((deliver_entries meanwhile now cur_index sts
          ((id, m) ∷ ms)).entries
        ≡ (
          id,
          record m {
            ack_deadline = now +ℤ st.ack_timeout;
            stream_index = pos (i % length (map (meanwhile (length ms)) sts));
          },
        )
          ∷ rest)
unfolding deliver_entries
redelivery_stays meanwhile now cur_index i sts id m ms {st} named free at waiting =
    let found = map (meanwhile (length ms)) sts in
    let taken = try_first m.proto i found at waiting in
    let k = i % length found in
    let start : start_of m.stream_index cur_index ≡ i = ap (λ n. start_of n cur_index) named in
    let t = try_deliver_message m.proto (start_of m.stream_index cur_index) found in
    let takes : t.taker ≡ some (k, st.ack_timeout) =
      ap (λ n. (try_deliver_message m.proto n found).taker) start ∙ taken in
    let rest =
      (deliver_entries meanwhile now (next_cur m.stream_index cur_index k) t.streams ms).entries in
    (
      rest,
      rw (free, takes, deliver_entries)
          (ap
            (λ n.
              (
                id,
                record m {
                  ack_deadline = now +ℤ st.ack_timeout;
                  stream_index = next_stream_index n k;
                },
              )
              ∷ rest)
            named),
    )
