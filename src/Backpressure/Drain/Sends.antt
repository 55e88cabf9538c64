-- ===== src/Backpressure/Drain/Sends.antt =====
-- A run of `drain` in which no send fails.
use fastapi_websockets_produ.Common.{
  ℕ, zero, suc, ◌+◌, ◌≡◌, refl, ◌∙◌, ap, inl, inr, some, length, take, drop, arith, min,
}
use fastapi_websockets_produ.Asyncio.{Outcome, returned}
use fastapi_websockets_produ.Backpressure.SendQueue.{SendQueue, contents}
use fastapi_websockets_produ.Backpressure.Drain.{drain_loop, drain, Drained, count_sent}
use fastapi_websockets_produ.Backpressure.Drain.Pops.{next_message-Next}
use fastapi_websockets_produ.Backpressure.Drain.Order.{send_all}

module _ {ℓ κ} {A : Type ℓ} {W : Type κ} (send_fn : A → W → W × Outcome) where
  -- The whole loop where no send fails.
  abbrev Sends : ℕ → ℕ → SendQueue A → W → Drained A W → Type (ℓ ⊔ κ)
  Sends rounds sent q w r =
      (r.result ≡ some (sent + min rounds (length (contents q))))
      × (contents r.sender ≡ drop rounds (contents q))
      × (r.world ≡ send_all send_fn (take rounds (contents q)) w)

  drain_loop-Sends :
      (rounds sent : ℕ) (q : SendQueue A) (w : W)
      → ((m : A) (u : W) → (send_fn m u).1 ≡ returned)
      → Sends rounds sent q w (drain_loop send_fn rounds sent q w)
  unfolding drain_loop
  drain_loop-Sends zero sent q w h = (ap some (omega arith), refl, refl)
  drain_loop-Sends (suc rounds) sent q w h = elim (next_message-Next q) [
    | inl (empty, e) ↦ rw (e, drain_loop) (rw empty (ap some (omega arith), refl, refl))
    | inr (m, q', e, p) ↦
        let (res, left, world) =
          drain_loop-Sends rounds (sent + 1) (count_sent q') (send_fn m w).0 h in
        rw (e, drain_loop, h m w) (rw p.split (res ∙ ap some (omega arith), left, world))
  ]

  -- Where every send returns, `drain` sends the oldest messages, as many as the batch size and the
  -- queue allow, in order; it returns their number, and the rest stays.
  pub drain-Sends :
      (q : SendQueue A) (w : W) (batch_size : ℕ)
      → ((m : A) (u : W) → (send_fn m u).1 ≡ returned)
      → let r = drain send_fn q w batch_size in
        (r.result ≡ some (min batch_size (length (contents q))))
        × (contents r.sender ≡ drop batch_size (contents q))
        × (r.world ≡ send_all send_fn (take batch_size (contents q)) w)
  unfolding drain
  drain-Sends q w batch_size h =
      let (res, left, world) = drain_loop-Sends batch_size 0 q w h in
      (res ∙ ap some (omega arith), left, world)
