-- ===== src/Demo/Handlers/Endings.antt =====
-- How the two handlers end, and what they leave behind.
use fastapi_websockets_produ.Common.{
  list_laws, ℕ, ◌≡◌, refl, sym, ◌∙◌, ap, subst, false, Option, none, some, List, [], ◌∷◌, ◌++◌, map,
  map-append, arith, append_assoc, append-nil,
}
use fastapi_websockets_produ.Common.Text.{Str}
use fastapi_websockets_produ.Asyncio.{Outcome, cancelled}
use fastapi_websockets_produ.Shutdown.Registry.{ConnectionInfo, ConnectionRegistry, register, get}
use fastapi_websockets_produ.Shutdown.Registry.Laws.{
  IsValid, register-IsValid, deregister-IsValid, get-deregister, get-register,
}
use fastapi_websockets_produ.Shutdown.Lifespan.{make_connection_id}
use fastapi_websockets_produ.Demo.Handlers.{
  FakeWebSocket, Handler, waiting, finished, Signal, puts, stops, send_text, close, echo,
  correct_loop, clean_up, start_correct, resume_correct, run_correct,
}
use fastapi_websockets_produ.Demo.Handlers.Script.{signals, before_end, ending, Serves}

-- The loop itself: it has sent `texts`, and has ended if `how` says so.
abbrev Loops : Option Outcome → List Str → Handler → Type 0
Loops how texts (waiting ws) = (how ≡ none) × (ws.sent ≡ texts) × (ws.closed ≡ false)
Loops how texts (finished ws outcome) = (how ≡ some outcome) × (ws.sent ≡ texts)

pub correct_loop-text :
    (msg : Str) (rest : List (Option Str)) (ws : FakeWebSocket)
    → ws.closed ≡ false
    → correct_loop (some msg ∷ rest) ws
      ≡ correct_loop rest (record ws { sent = ws.sent ++ echo msg ∷ [] })
unfolding correct_loop send_text
correct_loop-text msg rest ws c = ground arith

correct_loop-Loops :
    (items : List (Option Str)) (ws : FakeWebSocket)
    → ws.closed ≡ false
    → Loops
        (ending (signals items))
        (ws.sent ++ map echo (before_end (signals items)))
        (correct_loop items ws)
unfolding correct_loop
correct_loop-Loops [] ws c = (refl, sym (append-nil ws.sent), c)
correct_loop-Loops (none ∷ rest) ws c = (refl, sym (append-nil ws.sent))
correct_loop-Loops (some msg ∷ rest) ws c =
    subst (Loops (ending (signals rest)) (ws.sent ++ map echo (msg ∷ before_end (signals rest))))
      (sym (correct_loop-text msg rest ws c))
      (subst
        (λ texts.
          Loops (ending (signals rest)) texts
            (correct_loop rest (record ws { sent = ws.sent ++ echo msg ∷ [] })))
        (simp list_laws)
        (correct_loop-Loops rest (record ws { sent = ws.sent ++ echo msg ∷ [] }) c))

ending-append : (gs hs : List Signal) → ending gs ≡ none → ending (gs ++ hs) ≡ ending hs
ending-append [] hs e = refl
ending-append (puts none ∷ gs) hs e = cc
ending-append (puts (some msg) ∷ gs) hs e = ending-append gs hs e
ending-append (stops ∷ gs) hs e = cc

before_end-append :
    (gs hs : List Signal)
    → ending gs ≡ none
    → before_end (gs ++ hs) ≡ before_end gs ++ before_end hs
before_end-append [] hs e = refl
before_end-append (puts none ∷ gs) hs e = cc
before_end-append (puts (some msg) ∷ gs) hs e = ap (◌∷◌ msg) (before_end-append gs hs e)
before_end-append (stops ∷ gs) hs e = cc

ending-append_ended :
    (gs hs : List Signal) (outcome : Outcome)
    → ending gs ≡ some outcome
    → (ending (gs ++ hs) ≡ some outcome) × (before_end (gs ++ hs) ≡ before_end gs)
ending-append_ended [] hs o e = absurd cc
ending-append_ended (puts none ∷ gs) hs o e = (e, refl)
ending-append_ended (puts (some msg) ∷ gs) hs o e =
    let (a, b) = ending-append_ended gs hs o e in (a, ap (◌∷◌ msg) b)
ending-append_ended (stops ∷ gs) hs o e = (e, refl)

clean_up-Serves :
    (gs : List Signal) (r : ConnectionRegistry) (conn_id : Str) (info : ConnectionInfo)
    (h : Handler)
    → IsValid r
    → get r conn_id ≡ some info
    → Loops (ending gs) (map echo (before_end gs)) h
    → let s = clean_up r conn_id h in Serves gs s.0 conn_id info s.1
unfolding clean_up close
clean_up-Serves gs r conn_id info (waiting ws) v g (a, b, c) = (a, b, c, g)
clean_up-Serves gs r conn_id info (finished ws outcome) v g (a, b) =
    (a, b, refl, get-deregister r conn_id v)

clean_up-IsValid :
    (r : ConnectionRegistry) (conn_id : Str) (h : Handler)
    → IsValid r
    → IsValid (clean_up r conn_id h).0
unfolding clean_up
clean_up-IsValid r conn_id (waiting ws) v = v
clean_up-IsValid r conn_id (finished ws outcome) v = deregister-IsValid r conn_id v

sent_after :
    (gs hs : List Signal) (sent : List Str)
    → ending gs ≡ none
    → sent ≡ map echo (before_end gs)
    → sent ++ map echo (before_end hs) ≡ map echo (before_end (gs ++ hs))
sent_after gs hs sent e s =
    ap (λ xs. xs ++ map echo (before_end hs)) s
    ∙ sym (map-append echo (before_end gs) (before_end hs))
    ∙ ap (map echo) (sym (before_end-append gs hs e))

resume_correct-Serves :
    (gs : List Signal) (r : ConnectionRegistry) (conn_id : Str) (info : ConnectionInfo)
    (h : Handler) (g : Signal)
    → Serves gs r conn_id info h
    → IsValid r
    → let s = resume_correct r conn_id h g in
      Serves (gs ++ g ∷ []) s.0 conn_id info s.1 × IsValid s.0
unfolding resume_correct
resume_correct-Serves gs r conn_id info (waiting ws) (puts item) (e, s, c, i) v =
    let hs = puts item ∷ [] in
    (
      clean_up-Serves (gs ++ hs) r conn_id info (correct_loop (item ∷ []) ws) v i (
          subst (λ how. Loops how (map echo (before_end (gs ++ hs))) (correct_loop (item ∷ []) ws))
            (sym (ending-append gs hs e))
            (subst (λ texts. Loops (ending hs) texts (correct_loop (item ∷ []) ws))
              (sent_after gs hs ws.sent e s) (correct_loop-Loops (item ∷ []) ws c))),
      clean_up-IsValid r conn_id (correct_loop (item ∷ []) ws) v,
    )
resume_correct-Serves gs r conn_id info (waiting ws) stops (e, s, c, i) v =
    let hs = stops ∷ [] in
    (
      clean_up-Serves (gs ++ hs) r conn_id info (finished ws cancelled) v i
          (ending-append gs hs e, sym (append-nil ws.sent) ∙ sent_after gs hs ws.sent e s),
      clean_up-IsValid r conn_id (finished ws cancelled) v,
    )
resume_correct-Serves gs r conn_id info (finished ws outcome) (puts item) (e, s, c, i) v =
    let (a, b) = ending-append_ended gs (puts item ∷ []) outcome e in
    ((a, s ∙ ap (map echo) (sym b), c, i), v)
resume_correct-Serves gs r conn_id info (finished ws outcome) stops (e, s, c, i) v =
    let (a, b) = ending-append_ended gs (stops ∷ []) outcome e in
    ((a, s ∙ ap (map echo) (sym b), c, i), v)

run_correct-Serves :
    (hs gs : List Signal) (r : ConnectionRegistry) (conn_id : Str) (info : ConnectionInfo)
    (h : Handler)
    → Serves gs r conn_id info h
    → IsValid r
    → let s = run_correct conn_id hs (r, h) in Serves (gs ++ hs) s.0 conn_id info s.1
unfolding run_correct
run_correct-Serves [] gs r conn_id info h s v =
    subst (λ xs. Serves xs r conn_id info h) (sym (append-nil gs)) s
run_correct-Serves (g ∷ hs) gs r conn_id info h s v =
    let (r', h') = resume_correct r conn_id h g in
    let (s', v') = resume_correct-Serves gs r conn_id info h g s v in
    let t = run_correct conn_id hs (r', h') in
    subst (λ xs. Serves xs t.0 conn_id info t.1) (append_assoc gs (g ∷ []) hs)
      (run_correct-Serves hs (gs ++ g ∷ []) r' conn_id info h' s' v')

-- The registry entry of a handler.
abbrev pub info_of : FakeWebSocket → ℕ → Str → ℕ → ConnectionInfo
info_of ws task uuid now = record {
  connection_id = make_connection_id uuid;
  client_id = ws.client_id;
  connected_at = now;
  task = task;
}

start_correct-Serves :
    (r : ConnectionRegistry) (ws : FakeWebSocket) (task : ℕ) (uuid : Str) (now : ℕ)
    → IsValid r
    → ws.closed ≡ false
    → ws.sent ≡ []
    → let s = start_correct r ws task uuid now in
      Serves (signals ws.messages) s.0 (make_connection_id uuid) (info_of ws task uuid now) s.1
      × IsValid s.0
unfolding start_correct
start_correct-Serves r ws task uuid now v c e =
    let info = info_of ws task uuid now in
    let gs = signals ws.messages in
    let h = correct_loop ws.messages ws in
    let v' = register-IsValid r info v in
    (
      clean_up-Serves gs (register r info) (make_connection_id uuid) info h v' (get-register r info)
          (subst (λ sent. Loops (ending gs) (sent ++ map echo (before_end gs)) h) e
            (correct_loop-Loops ws.messages ws c)),
      clean_up-IsValid (register r info) (make_connection_id uuid) h v',
    )

-- `correct_ws_handler` on an open socket, whatever messages come and whenever it is cancelled: until
-- the stream ends or the cancellation comes it is registered, and then it ends, by that cancellation
-- if it was one, with the close frame sent and the registration gone. All texts before are echoed,
-- in order, and none after.
pub run_correct-start_correct :
    (r : ConnectionRegistry) (ws : FakeWebSocket) (task : ℕ) (uuid : Str) (now : ℕ)
    (gs : List Signal)
    → IsValid r
    → ws.closed ≡ false
    → ws.sent ≡ []
    → let conn_id = make_connection_id uuid in
      let (r', h) = run_correct conn_id gs (start_correct r ws task uuid now) in
      Serves (signals ws.messages ++ gs) r' conn_id (info_of ws task uuid now) h
run_correct-start_correct r ws task uuid now gs v c e =
    let (r', h) = start_correct r ws task uuid now in
    let (s, v') = start_correct-Serves r ws task uuid now v c e in
    run_correct-Serves gs (signals ws.messages) r' (make_connection_id uuid)
      (info_of ws task uuid now) h s v'
