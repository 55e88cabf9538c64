-- ===== src/Demo/Simulation/Outcomes.antt =====
-- What the two simulations report.
use fastapi_websockets_produ.Common.{
  list_laws, length-map, ℕ, ◌≡◌, refl, sym, ◌∙◌, ap, true, false, some, List, [], ◌∷◌, ◌++◌, length,
  map, append-nil,
}
use fastapi_websockets_produ.Common.Text.{Str, str}
use fastapi_websockets_produ.Common.Dict
use fastapi_websockets_produ.Shutdown.Registry.{new_registry, active_count, register, deregister}
use fastapi_websockets_produ.Shutdown.Close.{
  close_all, cancel, cancel_at, cancel_all, happen, meanwhile,
}
use fastapi_websockets_produ.Shutdown.Lifespan.{make_connection_id}
use fastapi_websockets_produ.Demo.Handlers.{
  FakeWebSocket, waiting, stops, start_correct, resume_correct, clean_up, close, correct_loop,
  broken_loop, resume_broken, echo,
}
use fastapi_websockets_produ.Demo.Handlers.Endings.{correct_loop-text, info_of}
use fastapi_websockets_produ.Demo.Handlers.Broken.{broken_loop-text}
use fastapi_websockets_produ.Demo.Simulation.{
  fed_socket, simulate_broken, simulate_correct, shut_down, report_correct, acts_of, after_grace,
  report_broken,
}

-- The socket after the handler has echoed `texts`.
abbrev echoed : FakeWebSocket → List Str → FakeWebSocket
echoed ws texts = record ws { messages = []; sent = ws.sent ++ map echo texts }

correct_loop-fed :
    (texts : List Str) (ws : FakeWebSocket)
    → ws.closed ≡ false
    → correct_loop (map some texts) ws ≡ waiting (echoed ws texts)
unfolding correct_loop
correct_loop-fed [] ws c =
    ap (λ s. waiting (record ws { messages = []; sent = s })) (sym (append-nil ws.sent))
correct_loop-fed (t ∷ texts) ws c =
    correct_loop-text t (map some texts) ws c
    ∙ correct_loop-fed texts (record ws { sent = ws.sent ++ echo t ∷ [] }) c
    ∙ ap (λ s. waiting (record ws { messages = []; sent = s })) (simp list_laws)

broken_loop-fed :
    (texts : List Str) (ws : FakeWebSocket)
    → ws.closed ≡ false
    → broken_loop (map some texts) ws ≡ waiting (echoed ws texts)
unfolding broken_loop
broken_loop-fed [] ws c =
    ap (λ s. waiting (record ws { messages = []; sent = s })) (sym (append-nil ws.sent))
broken_loop-fed (t ∷ texts) ws c =
    broken_loop-text t (map some texts) ws c
    ∙ broken_loop-fed texts (record ws { sent = ws.sent ++ echo t ∷ [] }) c
    ∙ ap (λ s. waiting (record ws { messages = []; sent = s })) (simp list_laws)

-- The simulation of the correct handler returns, and reports that the close frame was sent, one
-- connection drained, the registry left empty and every text echoed, whatever was fed.
pub simulate_correct_lem :
    (texts : List Str) (uuid : Str) (now : ℕ)
    → simulate_correct texts uuid now
      ≡ some (record {
        close_frame_sent = true;
        connections_drained = 1;
        registry_empty_after = true;
        messages_echoed = length texts;
      })
unfolding simulate_correct shut_down start_correct resume_correct clean_up close report_correct
    acts_of fed_socket close_all cancel_all cancel_at cancel meanwhile happen register deregister
    new_registry active_count Dict.put
simulate_correct_lem texts uuid now =
    let ws = fed_socket (str "correct-client") texts in
    let cid = make_connection_id uuid in
    ap (λ h. shut_down cid (clean_up (register (new_registry 2) (info_of ws 0 uuid now)) cid h))
      (correct_loop-fed texts ws refl)
    ∙ ap
        (λ n. some (record {
          close_frame_sent = true;
          connections_drained = 1;
          registry_empty_after = true;
          messages_echoed = n;
        }))
        (length-map echo texts)

-- The simulation of the broken handler reports that no close frame was sent, every text echoed, and
-- no force needed: the cancellation ends the handler within the grace period.
pub simulate_broken_lem :
    (texts : List Str)
    → simulate_broken texts
      ≡ record { close_frame_sent = false; force_killed = false; messages_echoed = length texts }
unfolding simulate_broken resume_broken after_grace report_broken fed_socket
simulate_broken_lem texts =
    let ws = fed_socket (str "broken-client") texts in
    ap (λ h. after_grace (resume_broken h stops)) (broken_loop-fed texts ws refl)
    ∙ ap (λ n. record { close_frame_sent = false; force_killed = false; messages_echoed = n })
        (length-map echo texts)
