-- ===== src/Dashboard/Schedule/Returns.antt =====
-- `run_simulation` returns.
use fastapi_websockets_produ.Common.{
  ℕ, zero, suc, ◌+◌, ◌≤◌, ◌<◌, ◌≡◌, ◌≢◌, refl, sym, ◌∙◌, ap, subst, none, some, List, [], ◌∷◌, ◌++◌,
  if_neg, length, All, All-imp, All-append, arith, length-append,
}
use fastapi_websockets_produ.Common.Dict
use fastapi_websockets_produ.Common.Text.{Str, str_discrete}
use fastapi_websockets_produ.Backpressure.Controller.{GlobalStats, global_stats}
use fastapi_websockets_produ.Shutdown.Registry.{active_count}
use fastapi_websockets_produ.PubSub.Bus.{Subscriber, subscribe}
use fastapi_websockets_produ.Shutdown.Lifespan.{make_connection_id}
use fastapi_websockets_produ.Dashboard.Manager.{connect, connected, global_bp_stats}
use fastapi_websockets_produ.Dashboard.Tasks.{
  Client, Simulation, new_simulation, start_client, Reach, here, next, join,
}
use fastapi_websockets_produ.Dashboard.Tasks.Agreement.{ids}
use fastapi_websockets_produ.Dashboard.Tasks.Cleanup.{new_simulation-Reach-Agrees}
use fastapi_websockets_produ.Dashboard.Schedule.{
  Act, publishes, perform, perform_all, Start, lifetime_of, new_socket, launch, Summary, summary,
  after_gather, run_simulation, num_clients,
}
use fastapi_websockets_produ.Dashboard.Schedule.Traces.{Of, Traced, perform_all-Traced}
use fastapi_websockets_produ.Dashboard.Schedule.Ending.{turns, perform_all-ended}

module _ (starts : ℕ → Start) (end : ℕ) where
  abbrev name_of : ℕ → Str
  name_of i = make_connection_id (starts i).uuid

  -- A client that `run_simulation` started before client `k`.
  abbrev Launched : ℕ → Str → Subscriber → ℕ → Type 0
  Launched k conn_id subscriber deadline =
      ((i : ℕ) × (i < k) × (conn_id ≡ name_of i))
      × (subscriber.max_queue_size ≡ 256)
      × (deadline ≤ end)

  -- Fresh ids, and lifetimes that are over at `end`.
  abbrev pub Proper : Type 0
  Proper =
      ((i j : ℕ)
        → i < j
        → j < 5
        → make_connection_id (starts i).uuid ≢ make_connection_id (starts j).uuid)
      × ((i : ℕ) → i < 5 → (starts i).loop_now + 3000 ≤ end)

  Launched-later :
      (k : ℕ) (cs : List Client) → All (Of (Launched k)) cs → All (Of (Launched (k + 1))) cs
  Launched-later k cs a =
      All-imp (Of (Launched k)) (Of (Launched (k + 1))) cs
        (λ c h. ((h.0.0, omega (arith, h.0.1), h.0.2), h.1, h.2)) a

  new_name :
      (k : ℕ) (cs : List Client)
      → Proper
      → k < 5
      → All (Of (Launched k)) cs
      → All (λ c. c.conn_id ≢ name_of k) cs
  new_name k cs p h a =
      All-imp (Of (Launched k)) (λ c. c.conn_id ≢ name_of k) cs
        (λ c l e. p.0 l.0.0 k l.0.1 h (sym l.0.2 ∙ e)) a

get-absent {ℓ} :
    {V : Type ℓ} (k : Str) (d : List (Str × V)) (cs : List Client)
    → Dict.keys d ≡ ids cs
    → All (λ c. c.conn_id ≢ k) cs
    → Dict.get k d ≡ none
unfolding Dict.get
get-absent k [] cs e a = refl
get-absent k ((j, v) ∷ d) [] e a = absurd cc
get-absent k ((j, v) ∷ d) (c ∷ cs) e a =
    let tails : Dict.keys d ≡ ids cs = ground arith in
    let head : j ≡ c.conn_id = ground arith in
    elim (str_discrete j k) [
      | yes p ↦ absurd (a.0 (sym head ∙ p))
      | no p ↦ if_neg (str_discrete j k) p _ _ ∙ get-absent k d cs tails a.1
    ]

module _ (starts : ℕ → Start) (end : ℕ) where
  start_client-Traced :
      (k : ℕ) (s : Simulation)
      → Proper starts end
      → k < 5
      → Traced (Launched starts end k) k s
      → let st = starts k in
        Traced
          (Launched starts end (k + 1))
          (k + 1)
          (start_client s (new_socket k) k st.uuid st.now st.loop_now (lifetime_of k))
  unfolding start_client connect subscribe new_socket lifetime_of
  start_client-Traced k s p h t =
      let st = starts k in
      let a = (new_simulation-Reach-Agrees t.reached).0 in
      record {
        reached = next t.reached (
            join (new_socket k) k st.uuid st.now st.loop_now (lifetime_of k) refl refl (
              get-absent (name_of starts end k) s.manager.registry.connections s.running
                a.registered (new_name starts end k s.running p h t.holding.0)));
        holding = (
          All-append (Of (Launched starts end (k + 1))) s.running _
              (Launched-later starts end k s.running t.holding.0)
              (((k, omega arith, refl), refl, omega (arith, p.1 k h)), tt),
          omega (arith, t.holding.1, length-append s.running (_ ∷ [])),
        );
      }

  launch-Traced :
      (n k : ℕ) (s : Simulation)
      → Proper starts end
      → k + n ≤ 5
      → Traced (Launched starts end k) k s
      → Traced (Launched starts end (k + n)) (k + n) (launch n k starts s)
  unfolding launch
  launch-Traced zero k s p h t = subst (λ m. Traced (Launched starts end m) m s) (omega arith) t
  launch-Traced (suc n) k s p h t =
      let st = starts k in
      let s' = perform_all s st.acts in
      let t' = perform_all-Traced (Launched starts end k) k s st.acts t in
      let s'' = start_client s' (new_socket k) k st.uuid st.now st.loop_now (lifetime_of k) in
      subst (λ m. Traced (Launched starts end m) m (launch n (k + 1) starts s'')) (omega arith)
        (launch-Traced n (k + 1) s'' p (omega (arith, h))
          (start_client-Traced k s' p (omega (arith, h)) t'))

perform_all-append :
    (s : Simulation) (xs ys : List Act)
    → perform_all s (xs ++ ys) ≡ perform_all (perform_all s xs) ys
unfolding perform_all
perform_all-append s [] ys = refl
perform_all-append s (a ∷ xs) ys = perform_all-append (perform s a) xs ys

-- What the summary says when all are gone: nothing is left, and nothing was counted.
abbrev pub nothing_counted : GlobalStats
nothing_counted = record {
  connections = 0;
  total_queued = 0;
  total_dropped = 0;
  total_sent = 0;
  overall_drop_rate = record { num = 0; den = 1 };
}

keys_none {ℓ} : {V : Type ℓ} (d : List (Str × V)) → Dict.keys d ≡ [] → d ≡ []
keys_none [] e = refl
keys_none ((k, v) ∷ d) e = absurd cc

ended_summary :
    (s : Simulation)
    → Reach new_simulation s
    → s.running ≡ []
    → ((summary s).bp_stats ≡ nothing_counted) × ((summary s).registry_active ≡ 0)
unfolding summary connected active_count global_bp_stats global_stats
ended_summary s r e =
    let a = (new_simulation-Reach-Agrees r).0 in
    let queues = keys_none s.manager.bp.queues (a.buffered ∙ ap ids e) in
    let conns = keys_none s.manager.registry.connections (a.registered ∙ ap ids e) in
    (rw queues refl, ap length conns)

-- However the tasks of `run_simulation` take turns, with ids that differ and clocks by which all
-- lifetimes are over at `end`: one further tick of the producer and one turn for each client that is
-- still running, at `end`, end all handlers, and the run returns. Its summary then says that no
-- connection is active; and its statistics are all 0, whatever was sent.
pub run_simulation_lem :
    (starts : ℕ → Start) (acts : List Act) (now later end : ℕ)
    → Proper starts end
    → (r : Summary) × (run_simulation starts (acts ++ publishes now later ∷ turns 5 end) ≡ some r)
      × (r.registry_active ≡ 0)
      × (r.bp_stats ≡ nothing_counted)
unfolding run_simulation after_gather num_clients new_simulation
run_simulation_lem starts acts now later end p =
    let s = launch 5 0 starts new_simulation in
    let t =
      launch-Traced starts end 5 0 new_simulation p (omega arith)
        (record { reached = here; holding = nobody }) in
    let t' = perform_all-Traced (Launched starts end 5) 5 s acts t in
    let (reached, gone) =
      perform_all-ended (Launched starts end 5) end 5 (perform_all s acts) now later
        (λ c h. (h.1, h.2)) t' in
    let s' = perform_all (perform_all s acts) (publishes now later ∷ turns 5 end) in
    let (stats, active) = ended_summary s' reached gone in
    (
      summary s',
      rw (perform_all-append s acts (publishes now later ∷ turns 5 end))
          (ap (after_gather s') gone),
      active,
      stats,
    )
  where
    nobody :
        All (Of (Launched starts end 0)) new_simulation.running
        × (length new_simulation.running ≤ 0)
    nobody = (tt, omega arith)
