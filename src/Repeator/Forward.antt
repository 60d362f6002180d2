-- ===== src/Repeator/Forward.antt =====
-- A whole pass of `run`: what the repeator has sent, attached and shut down.
use pkt.Common.{
  ℕ, ◌+◌, ◌-◌, ◌≡◌, refl, ap, ◌∙◌, Bool, true, some, List, [], ◌∷◌, ◌++◌, map, All, append-nil,
  append_assoc, ◌==◌, if◌then◌else◌, arith,
}
use pkt.Repeator.{
  Signal, sigint, sighup, other, State, signal_handler, handle_all, Event, message, recv_error,
  interrupted, before_test, behind_test, Session, with_events, opened, open_outs, send_all, LoopEnd,
  left, receive, main_loop, SessionEnd, returns, restarts, clean_up, after_loop, run_session,
  err_ok, errcode_nn_shutdown,
}

-- No signal that the program takes notice of.
abbrev pub Calm : Event → Type 0
Calm (interrupted signal) = ⊥
Calm (before_test signal) = signal ≡ other
Calm (behind_test signal) = signal ≡ other
Calm event = Unit

-- Each message, once for each output socket, in order.
abbrev pub forwarded : List (ℕ × ℕ) → List Event → List (ℕ × List ℕ)
forwarded outs [] = []
forwarded outs (message bytes ∷ events) = map (λ out. (out.0, bytes)) outs ++ forwarded outs events
forwarded outs (recv_error ∷ events) = forwarded outs events
forwarded outs (interrupted signal ∷ events) = forwarded outs events
forwarded outs (before_test signal ∷ events) = forwarded outs events
forwarded outs (behind_test signal ∷ events) = forwarded outs events

abbrev with_sent : State → List (ℕ × List ℕ) → State
with_sent s log = record s { sent = log }

other_handled : (signal : Signal) (s : State) → signal ≡ other → signal_handler signal s ≡ s
unfolding signal_handler
other_handled sigint s h = cc
other_handled sighup s h = cc
other_handled other s h = refl

pub others_handled :
    (signals : List Signal) (s : State)
    → All (λ signal. signal ≡ other) signals
    → handle_all signals s ≡ s
unfolding handle_all
others_handled [] s h = refl
others_handled (signal ∷ signals) s (h, hs) =
    rw (other_handled signal s h) (others_handled signals s hs)

module _ (outs : List (ℕ × ℕ)) where
  -- The loop forwards calm events, and goes on.
  receive-append :
      (events rest : List Event) (s : State)
      → All Calm events
      → s.stop_request ≡ 0
      → receive outs (events ++ rest) s
        ≡ receive outs rest (with_sent s (s.sent ++ forwarded outs events))
  unfolding receive send_all
  receive-append [] rest s h go = rw (append-nil s.sent) refl
  receive-append (message bytes ∷ events) rest s (h, hs) go =
      let s' = send_all outs bytes s in
      let go_on : (s.stop_request == 0) ≡ true = rw go refl in
      rw go_on (
        receive-append events rest s' hs go
        ∙ rw (append_assoc s.sent (map (λ out. (out.0, bytes)) outs) (forwarded outs events)) refl)
  receive-append (recv_error ∷ events) rest s (h, hs) go =
      let go_on : (s.stop_request == 0) ≡ true = rw go refl in
      rw go_on (receive-append events rest s hs go)
  receive-append (interrupted signal ∷ events) rest s (h, hs) go = absurd h
  receive-append (before_test signal ∷ events) rest s (h, hs) go =
      let go_on : (s.stop_request == 0) ≡ true = rw go refl in
      rw (other_handled signal s h, go_on) (receive-append events rest s hs go)
  receive-append (behind_test signal ∷ events) rest s (h, hs) go =
      ap (λ (t : State). receive outs (events ++ rest) t) (other_handled signal s h)
      ∙ receive-append events rest s hs go

  -- A signal ends it, whichever it is, if it interrupts nn_recv.
  receive-interrupted_lem :
      (events rest : List Event) (s : State) (signal : Signal)
      → All Calm events
      → s.stop_request ≡ 0
      → receive outs (events ++ interrupted signal ∷ rest) s
        ≡ left (record s { stop_request = 1; sent = s.sent ++ forwarded outs events })
  unfolding receive signal_handler
  receive-interrupted_lem events rest s sigint h go =
      receive-append events (interrupted sigint ∷ rest) s h go
  receive-interrupted_lem events rest s sighup h go =
      receive-append events (interrupted sighup ∷ rest) s h go
  receive-interrupted_lem events rest s other h go =
      receive-append events (interrupted other ∷ rest) s h go

  -- SIGHUP elsewhere in the loop ends it too, and the flag stays 2.
  receive-sighup :
      (events rest : List Event) (s : State)
      → All Calm events
      → s.stop_request ≡ 0
      → receive outs (events ++ before_test sighup ∷ rest) s
        ≡ left (record s { stop_request = 2; sent = s.sent ++ forwarded outs events })
  unfolding receive signal_handler
  receive-sighup events rest s h go = receive-append events (before_test sighup ∷ rest) s h go

-- The state once a pass has cleaned up behind itself, with the flag as it was last set.
abbrev pub cleaned : State → ℕ → ℕ × ℕ → List (ℕ × ℕ) → List Event → State
cleaned s stop_request in_pair outs events = record {
  stop_request = stop_request;
  blocks = s.blocks;
  attached = s.attached ++ (in_pair ∷ outs);
  shutdowns = s.shutdowns ++ (in_pair ∷ outs);
  sent = s.sent ++ forwarded outs events;
}

module _ (bind : Bool) (a : Session) (in_socket eid : ℕ) (outs : List (ℕ × ℕ))
    (events rest : List Event) (s : State) where
  -- The state in which a pass that has opened everything enters its loop.
  abbrev entered : State
  entered = record {
    stop_request = 0;
    blocks = s.blocks + 1;
    attached = (s.attached ++ (in_socket, eid) ∷ []) ++ outs;
    shutdowns = s.shutdowns;
    sent = s.sent;
  }

  -- From the end of the loop to that of the pass.
  clean_up-calm :
      (stop_request : ℕ)
      → All (λ signal. signal ≡ other) a.late
      → clean_up
          (in_socket, eid)
          outs
          a.in_shut
          a.late
          (record entered { stop_request = stop_request; sent = s.sent ++ forwarded outs events })
        ≡ (if stop_request == 2
            then restarts (cleaned s stop_request (in_socket, eid) outs events)
            else returns
                (cleaned s stop_request (in_socket, eid) outs events)
                (if a.in_shut then err_ok else errcode_nn_shutdown))
  unfolding clean_up
  clean_up-calm stop_request late =
      let freed : s.blocks + 1 - 1 ≡ s.blocks = omega arith in
      rw
        (
          others_handled a.late
              (record {
                stop_request = stop_request;
                blocks = s.blocks + 1 - 1;
                attached = (s.attached ++ (in_socket, eid) ∷ []) ++ outs;
                shutdowns = s.shutdowns ++ ((in_socket, eid) ∷ outs);
                sent = s.sent ++ forwarded outs events;
              })
              late,
          freed,
          append_assoc s.attached ((in_socket, eid) ∷ []) outs,
        )
        refl

  entered_loop :
      (all : List Event)
      → a.in_socket ≡ some in_socket
      → a.in_endpoint ≡ some eid
      → a.allocated ≡ true
      → open_outs bind a.outs ≡ opened outs
      → All (λ signal. signal ≡ other) a.early
      → run_session bind (with_events a all) s
        ≡ after_loop (in_socket, eid) outs a.in_shut a.late (receive outs all entered)
  unfolding run_session main_loop
  entered_loop all has_socket has_endpoint has_buffer has_outs early =
      rw (has_socket, has_endpoint, has_buffer, has_outs, others_handled a.early entered early) refl

  -- A pass of `run` that gets its input socket, its buffer and all its output sockets, and meets no
  -- signal that the program takes notice of but one: it sends each message to all output sockets, in
  -- order, and then frees its buffer and calls nn_shutdown for all endpoints that it has attached. If the signal
  -- interrupts nn_recv, whichever it is, the pass returns 0, or ERRCODE_NN_SHUTDOWN if the input
  -- endpoint can not be shut down. If it is SIGHUP before a test of the flag, the pass goes back to
  -- START.
  pub run_session-Calm :
      (signal : Signal)
      → a.in_socket ≡ some in_socket
      → a.in_endpoint ≡ some eid
      → a.allocated ≡ true
      → open_outs bind a.outs ≡ opened outs
      → All (λ signal. signal ≡ other) a.early
      → All (λ signal. signal ≡ other) a.late
      → All Calm events
      → (run_session bind (with_events a (events ++ interrupted signal ∷ rest)) s
          ≡ returns
              (cleaned s 1 (in_socket, eid) outs events)
              (if a.in_shut then err_ok else errcode_nn_shutdown))
        × (run_session bind (with_events a (events ++ before_test sighup ∷ rest)) s
            ≡ restarts (cleaned s 2 (in_socket, eid) outs events))
  run_session-Calm signal has_socket has_endpoint has_buffer has_outs early late calm =
      let after : LoopEnd → SessionEnd = after_loop (in_socket, eid) outs a.in_shut a.late in
      (
        entered_loop (events ++ interrupted signal ∷ rest) has_socket has_endpoint has_buffer
              has_outs early
            ∙ ap after (receive-interrupted_lem outs events rest entered signal calm refl)
            ∙ clean_up-calm 1 late,
        entered_loop (events ++ before_test sighup ∷ rest) has_socket has_endpoint has_buffer
              has_outs early
            ∙ ap after (receive-sighup outs events rest entered calm refl)
            ∙ clean_up-calm 2 late,
      )
