-- ===== src/PubSub/Hub/Members.antt =====
-- The members of each channel of the hub are the subscribers that the bus lists for it.
use fastapi_websockets_produ.Common.{
  ◌≡◌, ◌≢◌, refl, sym, ◌∙◌, ap, subst, none, List, [], ◌∷◌, if_pos, if_neg, arith, ==-eq,
}
use fastapi_websockets_produ.Common.Dict
use fastapi_websockets_produ.Common.Dict.{IsDict, get-put_ne}
use fastapi_websockets_produ.Common.Text.{Str, str_discrete}
use fastapi_websockets_produ.PubSub.Bus.{
  Subscriber, Bus, or_empty, subscribers, subscriber_discrete, remove, close_channel, unsubscribe,
}
use fastapi_websockets_produ.PubSub.Bus.Deliver.{find_ref, OwnQueues}
use fastapi_websockets_produ.PubSub.Bus.Channels.{
  subscribers-put, subscribers-replace, subscribers-replace_ne, unsubscribe_all-left,
  unsubscribe_all-other, members-channel,
}
use fastapi_websockets_produ.PubSub.Bus.Validity.{IsValid, subscribers-Listed}
use fastapi_websockets_produ.PubSub.Hub.{with_key, without}

-- A function that has the value at the key, and agrees with `f` at every other key.
with_key-point {ℓ} :
    {A : Type ℓ} (f g : Str → A) (k : Str) (v : A)
    → g k ≡ v
    → ((j : Str) → k ≢ j → g j ≡ f j)
    → (j : Str) → g j ≡ with_key f k v j
with_key-point f g k v here there j = elim (str_discrete k j) [
  | yes p ↦ ap g (sym p) ∙ here ∙ sym (if_pos (str_discrete k j) p v (f j))
  | no p ↦ there j p ∙ sym (if_neg (str_discrete k j) p v (f j))
]

without-absent :
    (s : Subscriber) (ss : List Subscriber) → find_ref s.queue ss ≡ none → without s ss ≡ ss
without-absent s [] h = refl
without-absent s (t ∷ ts) h = elim (subscriber_discrete t s) [
  | yes p ↦ absurd (ground (arith, ==-eq t.queue s.queue (ap (λ x. x.queue) p)))
  | no p ↦ rw (if_neg _ p) (ap (◌∷◌ t) (without-absent s ts (ground arith)))
]

remove-without : (s : Subscriber) (ss : List Subscriber) → OwnQueues ss → remove s ss ≡ without s ss
unfolding remove
remove-without s [] own = refl
remove-without s (t ∷ ts) own = elim (subscriber_discrete t s) [
  | yes p ↦
      let absent : find_ref s.queue ts ≡ none = subst (λ x. find_ref x.queue ts ≡ none) p own.0 in
      if_pos (subscriber_discrete t s) p ts (t ∷ remove s ts)
      ∙ sym (without-absent s ts absent)
      ∙ sym (if_pos (subscriber_discrete t s) p (without s ts) (t ∷ without s ts))
  | no p ↦
      if_neg (subscriber_discrete t s) p ts (t ∷ remove s ts)
      ∙ ap (◌∷◌ t) (remove-without s ts own.1)
      ∙ sym (if_neg (subscriber_discrete t s) p (without s ts) (t ∷ without s ts))
]

pub subscribers-with_key :
    (channel : Str) (ss : List Subscriber) (d : List (Str × List Subscriber)) (other : Str)
    → subscribers (Dict.put channel ss d) other ≡ with_key (subscribers d) channel ss other
subscribers-with_key channel ss d =
    with_key-point (subscribers d) (subscribers (Dict.put channel ss d)) channel ss
      (subscribers-put channel ss d) (λ j ne. ap or_empty (get-put_ne channel j ss d ne))

module _ {ℓ} {P : Type ℓ} where
  pub unsubscribe-with_key :
      (bus : Bus P) (s : Subscriber) (other : Str)
      → IsValid bus
      → subscribers (unsubscribe bus s).channels other
        ≡ with_key
            (subscribers bus.channels)
            s.channel
            (without s (subscribers bus.channels s.channel))
            other
  unfolding unsubscribe
  unsubscribe-with_key bus s other v =
      let subs = subscribers bus.channels s.channel in
      with_key-point (subscribers bus.channels) (subscribers (unsubscribe bus s).channels) s.channel
        (without s subs)
        (subscribers-replace s.channel (remove s subs) bus.channels v.distinct
          ∙ remove-without s subs (subscribers-Listed bus s.channel v).1)
        (λ j ne. subscribers-replace_ne s.channel j (remove s subs) bus.channels ne) other

  pub close_channel-with_key :
      (bus : Bus P) (channel other : Str)
      → IsValid bus
      → subscribers (close_channel bus channel).channels other
        ≡ with_key (subscribers bus.channels) channel [] other
  unfolding close_channel
  close_channel-with_key bus channel other v =
      let subs = subscribers bus.channels channel in
      let own = members-channel bus channel subs (subscribers-Listed bus channel v).0 in
      with_key-point (subscribers bus.channels) (subscribers (close_channel bus channel).channels)
        channel [] (unsubscribe_all-left bus channel subs own v refl)
        (λ j ne. unsubscribe_all-other bus channel j subs ne own) other
