-- ===== src/PubSub/Hub/Sizes.antt =====
-- No operation of the bus but `subscribe` makes a queue, and none forgets one.
use fastapi_websockets_produ.Common.{
  ℕ, ◌≡◌, refl, ◌∙◌, Bool, Option, none, Option-cases, inl, inr, List, [], ◌∷◌, get_elem?, length,
  length-set,
}
use fastapi_websockets_produ.Common.Text.{Str}
use fastapi_websockets_produ.Asyncio.{get_nowait}
use fastapi_websockets_produ.PubSub.Bus.{
  Message, Subscriber, Mailbox, Bus, subscribers, put_at, deliver, deliver_all, publish, get_at,
  unsubscribe, unsubscribe_all,
}

module _ {ℓ} {P : Type ℓ} where
  pub length-put_at :
      (qs : List (Mailbox P)) (i : ℕ) (x : Option (Message P))
      → length (put_at qs i x).0 ≡ length qs
  unfolding put_at
  length-put_at qs i x = elim (Option-cases (get_elem? qs i)) [
    | inl e ↦ rw (e, put_at) refl
    | inr (q, e) ↦ rw (e, put_at) (length-set qs i _)
  ]

  pub length-get_at : (qs : List (Mailbox P)) (i : ℕ) → length (get_at qs i).0 ≡ length qs
  unfolding get_at
  length-get_at qs i = elim (Option-cases (get_elem? qs i)) [
    | inl e ↦ rw (e, get_at) refl
    | inr (q, e) ↦ elim (Option-cases (get_nowait q)) [
      | inl f ↦ rw (e, f, get_at) refl
      | inr ((x, q'), f) ↦ rw (e, f, get_at) (length-set qs i q')
    ]
  ]

  length-deliver :
      (skip_lagging : Bool) (msg : Message P) (qs : List (Mailbox P)) (n : ℕ) (s : Subscriber)
      → length (deliver skip_lagging msg (qs, n) s).0 ≡ length qs
  unfolding deliver
  length-deliver skip_lagging msg qs n s = elim (Option-cases (get_elem? qs s.queue)) [
    | inl e ↦ rw (e, deliver) refl
    | inr (q, e) ↦ rw (e, deliver) (length-set qs s.queue _)
  ]

  length-deliver_all :
      (skip_lagging : Bool) (msg : Message P) (ss : List Subscriber) (qs : List (Mailbox P)) (n : ℕ)
      → length (deliver_all skip_lagging msg ss (qs, n)).0 ≡ length qs
  unfolding deliver_all
  length-deliver_all skip_lagging msg [] qs n = refl
  length-deliver_all skip_lagging msg (s ∷ ss) qs n =
      let r = deliver skip_lagging msg (qs, n) s in
      length-deliver_all skip_lagging msg ss r.0 r.1 ∙ length-deliver skip_lagging msg qs n s

  pub length-publish :
      (bus : Bus P) (channel : Str) (payload : P) (publisher_id : Str) (skip_lagging : Bool)
      (now : ℕ)
      → length (publish bus channel payload publisher_id skip_lagging now).0.queues
        ≡ length bus.queues
  unfolding publish
  length-publish bus channel payload publisher_id skip_lagging now =
      length-deliver_all skip_lagging _ (subscribers bus.channels channel) bus.queues 0

  pub length-unsubscribe_all :
      (bus : Bus P) (ss : List Subscriber)
      → length (unsubscribe_all bus ss).queues ≡ length bus.queues
  unfolding unsubscribe_all unsubscribe
  length-unsubscribe_all bus [] = refl
  length-unsubscribe_all bus (s ∷ ss) =
      length-unsubscribe_all (unsubscribe bus s) ss ∙ length-put_at bus.queues s.queue none
