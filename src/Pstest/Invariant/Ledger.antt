-- ===== src/Pstest/Invariant/Ledger.antt =====
-- The ledger of published messages, and the messages in the hands of the subscriptions.
use gcp_emulator_pool.Common.{
  ℕ, ◌<◌, ◌≡◌, sym, subst, ◌∙◌, some, Str, str_discrete, ℕ_discrete, lookup, All, update, update_at,
  update_ne,
}
use gcp_emulator_pool.Pstest.State.{Message, Subscription, GServer}
use gcp_emulator_pool.Pstest.Publishing.{message_id}
use gcp_emulator_pool.Pstest.Invariant.Inbox.{IsInbox}

-- The k-th message to be published has the id that prints k, is under that id in `msgsByID` until
-- the messages are cleared, and each subscription holds a message under its id, at most once.
pub record Ledger (s : GServer) : Type 0 where
  pub numbered : s.next_id ≡ s.next_message
  pub named : (r : ℕ) → r < s.next_message → (s.message_heap r).id ≡ message_id r
  pub logged : All (λ r. r < s.next_message) s.msgs
  pub recorded :
      (id : Str) (r : ℕ)
      → lookup str_discrete id s.msgs_by_id ≡ some r
      → (r < s.next_message) × (id ≡ message_id r)
  pub inbox : (q : ℕ) → q < s.next_sub → IsInbox s.next_message (s.sub_heap q).msgs

-- A change to counters and to the messages of subscriptions.
pub Ledger-step :
    (s : GServer) (messages : ℕ → Message) (subs : ℕ → Subscription)
    → Ledger s
    → ((r : ℕ) → (messages r).id ≡ (s.message_heap r).id)
    → ((q : ℕ) → q < s.next_sub → IsInbox s.next_message (subs q).msgs)
    → Ledger (record s { message_heap = messages; sub_heap = subs })
Ledger-step s messages subs l same held = record {
  numbered = l.numbered;
  named = λ r h. same r ∙ l.named r h;
  logged = l.logged;
  recorded = l.recorded;
  inbox = held;
}

-- The messages of one subscription are written.
pub IsInbox-update :
    (n bound r : ℕ) (heap : ℕ → Subscription) (sub : Subscription)
    → ((q : ℕ) → q < bound → IsInbox n (heap q).msgs)
    → (r < bound → IsInbox n sub.msgs)
    → (q : ℕ) → q < bound
    → IsInbox n (update heap r sub q).msgs
IsInbox-update n bound r heap sub old new q h = elim (ℕ_discrete r q) [
  | yes e ↦
      subst (λ x. IsInbox n x.msgs) (sym (update_at heap r sub q e))
        (new (subst (λ k. k < bound) (sym e) h))
  | no ne ↦ subst (λ x. IsInbox n x.msgs) (sym (update_ne heap r q sub ne)) (old q h)
]
