-- ===== src/Dashboard/Schedule/Traces.antt =====
-- What a schedule does is a sequence of steps of the tasks, and keeps what is known of each client.
use fastapi_websockets_produ.Common.{
  ℕ, zero, suc, ◌≤◌, ◌≡◌, refl, sym, subst, Bool-cases, leb, Option, none, some, Option-cases, inl,
  inr, List, [], ◌∷◌, ◌++◌, length, All, All-middle, All-replace, arith, length-append,
}
use fastapi_websockets_produ.Common.Text.{Str}
use fastapi_websockets_produ.Asyncio.{Outcome, returned, raised, cancelled}
use fastapi_websockets_produ.PubSub.Bus.{Message, Subscriber, receive}
use fastapi_websockets_produ.Dashboard.Manager.{FakeWebSocket, send_json}
use fastapi_websockets_produ.Dashboard.Tasks.{
  Metrics, Client, Simulation, new_simulation, produce, Turn, client_of, goes_on, ends, after_send,
  take_turn, leave, after_turn, turn, tick, serve, Reach, next,
}
use fastapi_websockets_produ.Dashboard.Schedule.{
  Act, publishes, serves, split_at, serve_at, perform, perform_all,
}

split_at-middle :
    (k : ℕ) (cs : List Client) (before : List Client) (c : Client) (behind : List Client)
    → split_at k cs ≡ some (before, c, behind)
    → cs ≡ before ++ c ∷ behind
unfolding split_at
split_at-middle k [] before c behind e = cc
split_at-middle zero (d ∷ cs) before c behind e = ground arith
split_at-middle (suc k) (d ∷ cs) before c behind e = elim (Option-cases (split_at k cs)) [
  | inl f ↦ absurd (ground (arith, e, f))
  | inr ((b', c', a'), f) ↦ let tail = split_at-middle k cs b' c' a' f in ground (arith, e, f, tail)
]

after_send-client :
    (c : Client) (now : ℕ) (r : FakeWebSocket Metrics × Outcome)
    → client_of (after_send c now r) ≡ record c { ws = r.0 }
unfolding after_send
after_send-client c now (ws, returned) = elim (Bool-cases (leb c.deadline now)) [
  | inl e ↦ rw e refl
  | inr e ↦ rw e refl
]
after_send-client c now (ws, raised) = refl
after_send-client c now (ws, cancelled) = refl

-- A property of clients that does not look at their sockets.
module _ (P : Str → Subscriber → ℕ → Type 0) where
  abbrev pub Of : Client → Type 0
  Of c = P c.conn_id c.subscriber c.deadline

  pub take_turn-Of :
      (c : Client) (now : ℕ) (item : Option (Option (Message Metrics)))
      → Of c
      → Of (client_of (take_turn c now item))
  unfolding take_turn
  take_turn-Of c now none h = h
  take_turn-Of c now (some none) h = h
  take_turn-Of c now (some (some msg)) h =
      subst Of (sym (after_send-client c now (send_json msg.payload c.ws))) h

  -- All running clients have the property, and there are at most `n`.
  abbrev pub Holding : ℕ → List Client → Type 0
  Holding n cs = All Of cs × (length cs ≤ n)

  after_turn-Holding :
      (n : ℕ) (s : Simulation) (before behind : List Client) (t : Turn)
      → Holding n (before ++ client_of t ∷ behind)
      → Holding n (after_turn s before behind t).running
  unfolding after_turn leave
  after_turn-Holding n s before behind (goes_on c) h = h
  after_turn-Holding n s before behind (ends c) (a, l) = (
    (All-middle Of before c behind a).1,
    omega (arith, l, length-append before behind, length-append before (c ∷ behind)),
  )

  pub turn-Holding :
      (n : ℕ) (s : Simulation) (before : List Client) (c : Client) (behind : List Client) (now : ℕ)
      → Holding n (before ++ c ∷ behind)
      → Holding n (turn s before c behind now).running
  unfolding turn
  turn-Holding n s before c behind now (a, l) =
      let (bus, item) = receive s.bus c.subscriber in
      let c' = client_of (take_turn c now item) in
      after_turn-Holding n (record s { bus = bus }) before behind (take_turn c now item)
        (
          All-replace Of before c c' behind
              (take_turn-Of c now item (All-middle Of before c behind a).0) a,
          omega (arith, l, length-append before (c ∷ behind), length-append before (c' ∷ behind)),
        )

  -- What holds of a state that a schedule has led to.
  pub record Traced (n : ℕ) (s : Simulation) : Type 0 where
    pub reached : Reach new_simulation s
    pub holding : Holding n s.running

  pub perform-Traced : (n : ℕ) (s : Simulation) (a : Act) → Traced n s → Traced n (perform s a)
  unfolding perform serve_at produce
  perform-Traced n s (publishes now later) t = record {
    reached = next t.reached (tick now later);
    holding = t.holding;
  }
  perform-Traced n s (serves k now) t = elim (Option-cases (split_at k s.running)) [
    | inl e ↦ rw (e, perform) t
    | inr ((before, c, behind), e) ↦
        let m = split_at-middle k s.running before c behind e in
        rw (e, perform)
          (record {
            reached = next t.reached (serve before c behind now m);
            holding = turn-Holding n s before c behind now (subst (Holding n) m t.holding);
          })
  ]

  pub perform_all-Traced :
      (n : ℕ) (s : Simulation) (acts : List Act) → Traced n s → Traced n (perform_all s acts)
  unfolding perform_all
  perform_all-Traced n s [] t = t
  perform_all-Traced n s (a ∷ acts) t =
      perform_all-Traced n (perform s a) acts (perform-Traced n s a t)
