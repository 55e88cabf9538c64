-- ===== src/PubSub/Bus/Received.antt =====
-- What the holder of a queue gets over a run of calls, and what is published meanwhile.
use mathlib.Core.List.Sublistᴰ
use mathlib.Core.List.{Sublistᴰ}
use fastapi_websockets_produ.Common.{
  ℕ, ◌≡◌, refl, sym, ◌∙◌, ap, subst, Option, none, some, inl, inr, List, [], ◌∷◌, ◌++◌, append-nil,
  ite, if◌then◌else◌, ◌==◌,
}
use fastapi_websockets_produ.Common.Text.{Str, str_discrete}
use fastapi_websockets_produ.PubSub.Bus.{
  Message, Subscriber, Bus, unsubscribe, unsubscribe_all, receive,
}
use fastapi_websockets_produ.PubSub.Bus.Deliver.{message_of}
use fastapi_websockets_produ.PubSub.Bus.Items.{Extends, Popped, unsubscribe-Extends}
use fastapi_websockets_produ.PubSub.Bus.Operations.{Call, join, leave, send, fetch, close, step}
use fastapi_websockets_produ.PubSub.Bus.Reading.{items_at}

module _ {ℓ} {P : Type ℓ} where
  -- The messages among the items of a queue, without the end marks.
  abbrev pub messages_in : List (Option (Message P)) → List (Message P)
  messages_in [] = []
  messages_in (none ∷ items) = messages_in items
  messages_in (some msg ∷ items) = msg ∷ messages_in items

  -- What `get` gave, if it was a message.
  abbrev pub taken : Option (Option (Message P)) → List (Message P)
  taken none = []
  taken (some none) = []
  taken (some (some msg)) = msg ∷ []

  -- What a call takes from the queue with index `i`.
  abbrev pub got : Bus P → ℕ → Call P → List (Message P)
  got bus i (join channel subscriber_id max_queue_size) = []
  got bus i (leave s) = []
  got bus i (send channel payload publisher_id skip_lagging now) = []
  got bus i (fetch s) = if s.queue == i then taken (receive bus s).1 else []
  got bus i (close channel) = []

  -- What a run of calls takes from it.
  unfoldable pub received : Bus P → ℕ → List (Call P) → List (Message P)
  received bus i [] = []
  received bus i (call ∷ calls) = got bus i call ++ received (step bus call) i calls

  abbrev pub sent : Str → Call P → List (Message P)
  sent channel (join other subscriber_id max_queue_size) = []
  sent channel (leave s) = []
  sent channel (send other payload publisher_id skip_lagging now) =
      ite (str_discrete other channel) (message_of other payload publisher_id now ∷ []) []
  sent channel (fetch s) = []
  sent channel (close other) = []

  -- The messages that the calls publish on the channel.
  unfoldable pub sent_on : Str → List (Call P) → List (Message P)
  sent_on channel [] = []
  sent_on channel (call ∷ calls) = sent channel call ++ sent_on channel calls

  pub messages_in-append :
      (xs ys : List (Option (Message P)))
      → messages_in (xs ++ ys) ≡ messages_in xs ++ messages_in ys
  messages_in-append [] ys = refl
  messages_in-append (none ∷ xs) ys = messages_in-append xs ys
  messages_in-append (some msg ∷ xs) ys = ap (λ ms. msg ∷ ms) (messages_in-append xs ys)

  pub Extends-mark :
      (xs ys : List (Option (Message P))) → Extends none xs ys → messages_in ys ≡ messages_in xs
  Extends-mark xs ys (inl e) = ap messages_in e
  Extends-mark xs ys (inr e) =
      ap messages_in e ∙ messages_in-append xs (none ∷ []) ∙ append-nil (messages_in xs)

  pub Extends-message :
      (msg : Message P) (xs ys : List (Option (Message P)))
      → Extends (some msg) xs ys
      → Sublistᴰ (messages_in ys) (messages_in xs ++ msg ∷ [])
  Extends-message msg xs ys (inl e) =
      subst (λ l. Sublistᴰ l (messages_in xs ++ msg ∷ []))
        (append-nil (messages_in xs) ∙ ap messages_in (sym e))
        (Sublistᴰ.append (Sublistᴰ.refl (messages_in xs)) (Sublistᴰ.nil-sublist (msg ∷ [])))
  Extends-message msg xs ys (inr e) =
      subst (λ l. Sublistᴰ l (messages_in xs ++ msg ∷ []))
        (sym (messages_in-append xs (some msg ∷ [])) ∙ ap messages_in (sym e))
        (Sublistᴰ.refl (messages_in xs ++ msg ∷ []))

  pub Popped-taken :
      (item : Option (Option (Message P))) (xs ys : List (Option (Message P)))
      → Popped item xs ys
      → taken item ++ messages_in ys ≡ messages_in xs
  Popped-taken none xs ys e = ap messages_in e
  Popped-taken (some none) xs ys e = ap messages_in (sym e)
  Popped-taken (some (some msg)) xs ys e = ap messages_in (sym e)

  pub unsubscribe_all-messages :
      (bus : Bus P) (ss : List Subscriber) (i : ℕ)
      → messages_in (items_at (unsubscribe_all bus ss) i) ≡ messages_in (items_at bus i)
  unfolding unsubscribe_all
  unsubscribe_all-messages bus [] i = refl
  unsubscribe_all-messages bus (s ∷ ss) i =
      unsubscribe_all-messages (unsubscribe bus s) ss i
      ∙ Extends-mark _ _ (unsubscribe-Extends bus s i)
