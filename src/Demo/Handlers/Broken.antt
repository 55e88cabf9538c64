-- ===== src/Demo/Handlers/Broken.antt =====
-- What `broken_ws_handler` does with the end of its stream and with a cancellation.
use fastapi_websockets_produ.Common.{
  list_laws, ◌≡◌, refl, sym, ◌∙◌, ap, subst, Bool, true, false, Option, none, some, List, [], ◌∷◌,
  ◌++◌, map, map-append, arith, append_assoc, append-nil,
}
use fastapi_websockets_produ.Common.Text.{Str}
use fastapi_websockets_produ.Asyncio.{cancelled}
use fastapi_websockets_produ.Demo.Handlers.{
  FakeWebSocket, Handler, waiting, finished, Signal, puts, stops, send_text, echo, broken_loop,
  resume_broken, run_broken,
}
use fastapi_websockets_produ.Demo.Handlers.Script.{signals}

-- The texts that arrive before the task is cancelled, ends of the stream passed over.
abbrev pub before_stop : List Signal → List Str
before_stop [] = []
before_stop (puts none ∷ gs) = before_stop gs
before_stop (puts (some msg) ∷ gs) = msg ∷ before_stop gs
before_stop (stops ∷ gs) = []

abbrev pub stopped : List Signal → Bool
stopped [] = false
stopped (puts item ∷ gs) = stopped gs
stopped (stops ∷ gs) = true

-- The handler on an open socket after the signals `gs`.
abbrev pub Drifts : List Signal → Handler → Type 0
Drifts gs (waiting ws) =
    (stopped gs ≡ false) × (ws.sent ≡ map echo (before_stop gs)) × (ws.closed ≡ false)
Drifts gs (finished ws outcome) =
    (stopped gs ≡ true)
    × (outcome ≡ cancelled)
    × (ws.sent ≡ map echo (before_stop gs))
    × (ws.closed ≡ false)

-- The loop alone never ends.
abbrev Spins : List Str → Handler → Type 0
Spins texts (waiting ws) = (ws.sent ≡ texts) × (ws.closed ≡ false)
Spins texts (finished ws outcome) = ⊥

pub broken_loop-text :
    (msg : Str) (rest : List (Option Str)) (ws : FakeWebSocket)
    → ws.closed ≡ false
    → broken_loop (some msg ∷ rest) ws
      ≡ broken_loop rest (record ws { sent = ws.sent ++ echo msg ∷ [] })
unfolding broken_loop send_text
broken_loop-text msg rest ws c = ground arith

broken_loop-Spins :
    (items : List (Option Str)) (ws : FakeWebSocket)
    → ws.closed ≡ false
    → Spins (ws.sent ++ map echo (before_stop (signals items))) (broken_loop items ws)
unfolding broken_loop
broken_loop-Spins [] ws c = (sym (append-nil ws.sent), c)
broken_loop-Spins (none ∷ rest) ws c = broken_loop-Spins rest ws c
broken_loop-Spins (some msg ∷ rest) ws c =
    let ws' : FakeWebSocket = record ws { sent = ws.sent ++ echo msg ∷ [] } in
    subst (Spins (ws.sent ++ map echo (msg ∷ before_stop (signals rest))))
      (sym (broken_loop-text msg rest ws c))
      (subst (λ texts. Spins texts (broken_loop rest ws')) (simp list_laws)
        (broken_loop-Spins rest ws' c))

Spins-Drifts :
    (gs : List Signal) (h : Handler)
    → stopped gs ≡ false
    → Spins (map echo (before_stop gs)) h
    → Drifts gs h
Spins-Drifts gs (waiting ws) e (s, c) = (e, s, c)
Spins-Drifts gs (finished ws outcome) e s = absurd s

stopped-append : (gs hs : List Signal) → stopped gs ≡ false → stopped (gs ++ hs) ≡ stopped hs
stopped-append [] hs e = refl
stopped-append (puts item ∷ gs) hs e = stopped-append gs hs e
stopped-append (stops ∷ gs) hs e = cc

before_stop-append :
    (gs hs : List Signal)
    → stopped gs ≡ false
    → before_stop (gs ++ hs) ≡ before_stop gs ++ before_stop hs
before_stop-append [] hs e = refl
before_stop-append (puts none ∷ gs) hs e = before_stop-append gs hs e
before_stop-append (puts (some msg) ∷ gs) hs e = ap (◌∷◌ msg) (before_stop-append gs hs e)
before_stop-append (stops ∷ gs) hs e = cc

stopped_after :
    (gs hs : List Signal)
    → stopped gs ≡ true
    → (stopped (gs ++ hs) ≡ true) × (before_stop (gs ++ hs) ≡ before_stop gs)
stopped_after [] hs e = absurd cc
stopped_after (puts none ∷ gs) hs e = stopped_after gs hs e
stopped_after (puts (some msg) ∷ gs) hs e =
    let (a, b) = stopped_after gs hs e in (a, ap (◌∷◌ msg) b)
stopped_after (stops ∷ gs) hs e = (refl, refl)

sent_after :
    (gs hs : List Signal) (sent : List Str)
    → stopped gs ≡ false
    → sent ≡ map echo (before_stop gs)
    → sent ++ map echo (before_stop hs) ≡ map echo (before_stop (gs ++ hs))
sent_after gs hs sent e s =
    ap (λ xs. xs ++ map echo (before_stop hs)) s
    ∙ sym (map-append echo (before_stop gs) (before_stop hs))
    ∙ ap (map echo) (sym (before_stop-append gs hs e))

resume_broken-Drifts :
    (gs : List Signal) (h : Handler) (g : Signal)
    → Drifts gs h
    → Drifts (gs ++ g ∷ []) (resume_broken h g)
unfolding resume_broken
resume_broken-Drifts gs (waiting ws) (puts item) (e, s, c) =
    let hs = puts item ∷ [] in
    Spins-Drifts (gs ++ hs) (broken_loop (item ∷ []) ws) (stopped-append gs hs e) (
      subst (λ texts. Spins texts (broken_loop (item ∷ []) ws)) (sent_after gs hs ws.sent e s)
        (broken_loop-Spins (item ∷ []) ws c))
resume_broken-Drifts gs (waiting ws) stops (e, s, c) =
    let hs = stops ∷ [] in
    (stopped-append gs hs e, refl, sym (append-nil ws.sent) ∙ sent_after gs hs ws.sent e s, c)
resume_broken-Drifts gs (finished ws outcome) (puts item) (e, o, s, c) =
    let (a, b) = stopped_after gs (puts item ∷ []) e in (a, o, s ∙ ap (map echo) (sym b), c)
resume_broken-Drifts gs (finished ws outcome) stops (e, o, s, c) =
    let (a, b) = stopped_after gs (stops ∷ []) e in (a, o, s ∙ ap (map echo) (sym b), c)

run_broken-Drifts :
    (hs gs : List Signal) (h : Handler) → Drifts gs h → Drifts (gs ++ hs) (run_broken hs h)
unfolding run_broken
run_broken-Drifts [] gs h d = subst (λ xs. Drifts xs h) (sym (append-nil gs)) d
run_broken-Drifts (g ∷ hs) gs h d =
    subst (λ xs. Drifts xs (run_broken hs (resume_broken h g))) (append_assoc gs (g ∷ []) hs)
      (run_broken-Drifts hs (gs ++ g ∷ []) (resume_broken h g) (resume_broken-Drifts gs h g d))

unstopped : (items : List (Option Str)) → stopped (signals items) ≡ false
unstopped [] = refl
unstopped (item ∷ items) = unstopped items

-- `broken_ws_handler` on an open socket, whatever comes: it never closes the socket. It passes over
-- every end of the stream and goes on to echo texts; but the first cancellation does end it at once, by
-- that cancellation.
pub run_broken-broken_loop :
    (ws : FakeWebSocket) (gs : List Signal)
    → ws.closed ≡ false
    → ws.sent ≡ []
    → Drifts (signals ws.messages ++ gs) (run_broken gs (broken_loop ws.messages ws))
run_broken-broken_loop ws gs c e =
    let items = ws.messages in
    run_broken-Drifts gs (signals items) (broken_loop items ws) (
      Spins-Drifts (signals items) (broken_loop items ws) (unstopped items) (
        subst
          (λ sent. Spins (sent ++ map echo (before_stop (signals items))) (broken_loop items ws)) e
          (broken_loop-Spins items ws c)))
