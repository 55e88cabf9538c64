-- ===== src/PubSub/Bus/Reading.antt =====
-- What a subscriber reads: the messages that its queue took, in order, and when the reading ends.
use Prim.Native.Nat.{ℕ, suc, ◌+◌, ◌≤◌}
use fastapi_websockets_produ.Common.{
  ◌≡◌, refl, sym, ◌∙◌, ap, true, false, Option, none, some, Bool-cases, inl, inr, List, [], ◌∷◌,
  ◌++◌, length, map, get_elem?, arith, append-nil, append_assoc, ==-eq, if◌then◌else◌,
  length-append, ◌⊎◌,
}
use fastapi_websockets_produ.Common.Text.{Str}
use fastapi_websockets_produ.Asyncio.{full, put_nowait}
use fastapi_websockets_produ.PubSub.Bus.{
  Message, Subscriber, Mailbox, Bus, finished, waiting, read, yields, subscribers, unsubscribe,
  publish, try_put, offer,
}
use fastapi_websockets_produ.PubSub.Bus.Deliver.{
  find_ref, OwnQueues, publish-queue, publish-channels, message_of,
}
use fastapi_websockets_produ.PubSub.Bus.Validity.{put_at-queue}

-- A queue of the given bound that holds `held` items takes `more` of them.
abbrev pub Room : ℕ → ℕ → ℕ → Type 0
Room bound held more = (bound ≡ 0) ⊎ (held + more ≤ bound)

module _ {ℓ} {P : Type ℓ} where
  -- The items in the queue with index `i`.
  abbrev pub items_of : Option (Mailbox P) → List (Option (Message P))
  items_of none = []
  items_of (some q) = q.items

  abbrev pub items_at : Bus P → ℕ → List (Option (Message P))
  items_at bus i = items_of (get_elem? bus.queues i)

  read-messages : (ms : List (Message P)) → read (map some ms) ≡ waiting ms
  unfolding read
  read-messages [] = refl
  read-messages (m ∷ ms) = ap (yields m) (read-messages ms)

  read-ended :
      (ms : List (Message P)) (rest : List (Option (Message P)))
      → read (map some ms ++ none ∷ rest) ≡ finished ms
  unfolding read
  read-ended [] rest = refl
  read-ended (m ∷ ms) rest = ap (yields m) (read-ended ms rest)

  try_put-full : (q : Mailbox P) (x : Option (Message P)) → full q ≡ true → (try_put q x).0 ≡ q
  unfolding try_put put_nowait
  try_put-full q x h = rw (h, try_put, put_nowait)

  try_put-room :
      (q : Mailbox P) (x : Option (Message P))
      → full q ≡ false
      → try_put q x ≡ (record q { items = q.items ++ x ∷ [] }, true)
  unfolding try_put put_nowait
  try_put-room q x h = rw (h, try_put, put_nowait)

  try_put-read :
      (q : Mailbox P) (ms : List (Message P))
      → q.items ≡ map some ms
      → read (try_put q none).0.items ≡ (if full q then waiting ms else finished ms)
  try_put-read q ms i = elim (Bool-cases (full q)) [
    | inl h ↦ rw (h, try_put-full q none h) (ap read i ∙ read-messages ms)
    | inr h ↦ rw (h, try_put-room q none h) (ap (λ l. read (l ++ none ∷ [])) i ∙ read-ended ms [])
  ]

  -- After `unsubscribe` a reader gets every message that waits, in order. Then it ends if there was
  -- room for the end mark; on a full queue the mark is lost, and the reader waits for ever.
  pub read-unsubscribe :
      (bus : Bus P) (s : Subscriber) (q : Mailbox P) (ms : List (Message P))
      → get_elem? bus.queues s.queue ≡ some q
      → q.items ≡ map some ms
      → read (items_at (unsubscribe bus s) s.queue) ≡ (if full q then waiting ms else finished ms)
  unfolding unsubscribe
  read-unsubscribe bus s q ms e i =
      ap (λ o. read (items_of o)) (put_at-queue bus.queues s.queue s.queue none q e)
      ∙ (rw (==-eq s.queue s.queue refl) (try_put-read q ms i))

  -- `for p in payloads: await bus.publish(channel, p, …, skip_lagging=False)`
  unfoldable pub publish_all : Bus P → Str → List P → Str → ℕ → Bus P
  publish_all bus channel [] publisher_id now = bus
  publish_all bus channel (p ∷ ps) publisher_id now =
      publish_all (publish bus channel p publisher_id false now).0 channel ps publisher_id now

  abbrev pub messages_of : Str → List P → Str → ℕ → List (Message P)
  messages_of channel ps publisher_id now = map (λ p. message_of channel p publisher_id now) ps

  not-full : (q : Mailbox P) (n : ℕ) → Room q.maxsize (length q.items) (suc n) → full q ≡ false
  unfolding full
  not-full q n h = ground arith

  publish-Room :
      (bus : Bus P) (channel : Str) (p : P) (publisher_id : Str) (now n : ℕ) (s : Subscriber)
      (q : Mailbox P)
      → OwnQueues (subscribers bus.channels channel)
      → find_ref s.queue (subscribers bus.channels channel) ≡ some s
      → get_elem? bus.queues s.queue ≡ some q
      → Room q.maxsize (length q.items) (suc n)
      → get_elem? (publish bus channel p publisher_id false now).0.queues s.queue
        ≡ some (record q { items = q.items ++ some (message_of channel p publisher_id now) ∷ [] })
  unfolding offer
  publish-Room bus channel p publisher_id now n s q own f e room =
      publish-queue bus channel p publisher_id false now s.queue own
      ∙ (rw (
        f,
        e,
        offer,
        try_put-room q (some (message_of channel p publisher_id now)) (not-full q n room),
      ))

  publish_all-items :
      (bus : Bus P) (channel : Str) (ps : List P) (publisher_id : Str) (now : ℕ) (s : Subscriber)
      (q : Mailbox P)
      → OwnQueues (subscribers bus.channels channel)
      → find_ref s.queue (subscribers bus.channels channel) ≡ some s
      → get_elem? bus.queues s.queue ≡ some q
      → Room q.maxsize (length q.items) (length ps)
      → get_elem? (publish_all bus channel ps publisher_id now).queues s.queue
        ≡ some (record q { items = q.items ++ map some (messages_of channel ps publisher_id now) })
  unfolding publish_all
  publish_all-items bus channel [] publisher_id now s q own f e room =
      e ∙ ap (λ l. some (record q { items = l })) (sym (append-nil q.items))
  publish_all-items bus channel (p ∷ ps) publisher_id now s q own f e room =
      let msg : Message P = message_of channel p publisher_id now in
      let bus' = (publish bus channel p publisher_id false now).0 in
      let (same, _) = publish-channels bus channel p publisher_id false now own in
      let q' : Mailbox P = record q { items = q.items ++ some msg ∷ [] } in
      publish_all-items bus' channel ps publisher_id now s q' (rw same own) (rw same f)
        (publish-Room bus channel p publisher_id now (length ps) s q own f e room)
        (ground (arith, length-append q.items (some msg ∷ [])))
      ∙ ap (λ l. some (record q { items = l }))
          (append_assoc q.items (some msg ∷ [])
            (map some (messages_of channel ps publisher_id now)))

  -- From `publish` to the reader: what is published to a channel with `skip_lagging=False`, while a
  -- subscriber's empty queue has room for it and for the end mark, is what the subscriber reads after
  -- `unsubscribe`, each message once and in order, and then the reading ends.
  pub read-publish_all :
      (bus : Bus P) (channel : Str) (ps : List P) (publisher_id : Str) (now : ℕ) (s : Subscriber)
      (q : Mailbox P)
      → OwnQueues (subscribers bus.channels channel)
      → find_ref s.queue (subscribers bus.channels channel) ≡ some s
      → get_elem? bus.queues s.queue ≡ some q
      → q.items ≡ []
      → Room q.maxsize 0 (suc (length ps))
      → read (items_at (unsubscribe (publish_all bus channel ps publisher_id now) s) s.queue)
        ≡ finished (messages_of channel ps publisher_id now)
  read-publish_all bus channel ps publisher_id now s q own f e empty room =
      let ms = messages_of channel ps publisher_id now in
      let q' : Mailbox P = record q { items = map some ms } in
      let held : get_elem? (publish_all bus channel ps publisher_id now).queues s.queue ≡ some q' =
        publish_all-items bus channel ps publisher_id now s q own f e
          (ground (arith, ap length empty))
        ∙ ap (λ l. some (record q { items = l ++ map some ms })) empty in
      read-unsubscribe (publish_all bus channel ps publisher_id now) s q' ms held refl
      ∙ (rw (not-full q' 0 (ground (arith, length-messages ps))))
    where
      length-messages :
          (l : List P) → length (map some (messages_of channel l publisher_id now)) ≡ length l
      length-messages [] = refl
      length-messages (x ∷ l) = ap suc (length-messages l)
