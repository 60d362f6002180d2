-- ===== src/Repeator/Reload.antt =====
-- When the repeator reloads: `run` jumps back to START only for a SIGHUP that does not interrupt
-- nn_recv.
use pkt.Common.{
  ℕ, ◌≡◌, ◌≢◌, refl, subst, ◌+◌, ◌-◌, Option, Bool, true, false, none, some, List, [], ◌∷◌, ◌++◌,
  All, ◌==◌, arith, Bool-cases, inl, inr,
}
use pkt.Repeator.{
  Signal, sigint, sighup, other, State, signal_handler, handle_all, Event, message, recv_error,
  interrupted, before_test, behind_test, Session, with_events, Opened, opened, open_failed,
  open_outs, send_all, LoopEnd, left, blocked, test_again, receive, main_loop, SessionEnd, restarts,
  clean_up, after_loop, run_outs, run_allocated, run_connected, run_session,
}

-- The loop is left in the same state whichever signal interrupts nn_recv.
receive-interrupted :
    (outs : List (ℕ × ℕ)) (events rest rest' : List Event) (signal signal' : Signal) (s : State)
    → receive outs (events ++ interrupted signal ∷ rest) s
      ≡ receive outs (events ++ interrupted signal' ∷ rest') s
unfolding receive signal_handler
receive-interrupted outs [] rest rest' sigint sigint s = refl
receive-interrupted outs [] rest rest' sigint sighup s = refl
receive-interrupted outs [] rest rest' sigint other s = refl
receive-interrupted outs [] rest rest' sighup sigint s = refl
receive-interrupted outs [] rest rest' sighup sighup s = refl
receive-interrupted outs [] rest rest' sighup other s = refl
receive-interrupted outs [] rest rest' other sigint s = refl
receive-interrupted outs [] rest rest' other sighup s = refl
receive-interrupted outs [] rest rest' other other s = refl
receive-interrupted outs (message bytes ∷ events) rest rest' signal signal' s =
    rw (receive-interrupted outs events rest rest' signal signal' (send_all outs bytes s)) refl
receive-interrupted outs (recv_error ∷ events) rest rest' signal signal' s =
    rw (receive-interrupted outs events rest rest' signal signal' s) refl
receive-interrupted outs (interrupted first ∷ events) rest rest' signal signal' s = refl
receive-interrupted outs (before_test first ∷ events) rest rest' signal signal' s =
    rw (receive-interrupted outs events rest rest' signal signal' (signal_handler first s)) refl
receive-interrupted outs (behind_test first ∷ events) rest rest' signal signal' s =
    receive-interrupted outs events rest rest' signal signal' (signal_handler first s)

module _ (a : Session) (events rest rest' : List Event) (signal signal' : Signal) where
  abbrev first : Session
  first = with_events a (events ++ interrupted signal ∷ rest)

  abbrev second : Session
  second = with_events a (events ++ interrupted signal' ∷ rest')

  outs-interrupted :
      (in_pair : ℕ × ℕ) (o : Opened) (s : State)
      → run_outs in_pair first o s ≡ run_outs in_pair second o s
  unfolding run_outs main_loop
  outs-interrupted in_pair (open_failed outs code) s = refl
  outs-interrupted in_pair (opened outs) s =
      rw
        (receive-interrupted outs events rest rest' signal signal'
          (handle_all a.early (record s { attached = s.attached ++ outs })))
        refl

  allocated-interrupted :
      (in_pair : ℕ × ℕ) (allocated : Bool) (o : Opened) (s : State)
      → run_allocated in_pair allocated first o s ≡ run_allocated in_pair allocated second o s
  unfolding run_allocated
  allocated-interrupted in_pair false o s = refl
  allocated-interrupted in_pair true o s =
      outs-interrupted in_pair o (record s { blocks = s.blocks + 1 })

  connected-interrupted :
      (socket endpoint : Option ℕ) (o : Opened) (s : State)
      → run_connected socket endpoint first o s ≡ run_connected socket endpoint second o s
  unfolding run_connected
  connected-interrupted none endpoint o s = refl
  connected-interrupted (some socket) none o s = refl
  connected-interrupted (some socket) (some eid) o s =
      allocated-interrupted (socket, eid) a.allocated o
        (record s { attached = s.attached ++ (socket, eid) ∷ [] })

-- A signal that interrupts nn_recv ends the loop of `run` in the same way whichever it is: SIGHUP is
-- taken for a request to stop, and so is a signal that has no meaning to the program. What would
-- have happened after it does not matter.
pub run_session-interrupted :
    (bind : Bool) (a : Session) (events rest rest' : List Event) (signal signal' : Signal)
    (s : State)
    → run_session bind (with_events a (events ++ interrupted signal ∷ rest)) s
      ≡ run_session bind (with_events a (events ++ interrupted signal' ∷ rest')) s
unfolding run_session
run_session-interrupted bind a events rest rest' signal signal' s =
    connected-interrupted a events rest rest' signal signal' a.in_socket a.in_endpoint
      (open_outs bind a.outs) (record s { stop_request = 0 })

-- The event is no SIGHUP, or one that interrupts nn_recv.
abbrev pub NoReload : Event → Type 0
NoReload (before_test signal) = signal ≢ sighup
NoReload (behind_test signal) = signal ≢ sighup
NoReload event = Unit

signal_handler-not_two :
    (signal : Signal) (s : State)
    → signal ≢ sighup
    → s.stop_request ≢ 2
    → (signal_handler signal s).stop_request ≢ 2
unfolding signal_handler
signal_handler-not_two sigint s h k = λ e. absurd (omega arith)
signal_handler-not_two sighup s h k = absurd (h refl)
signal_handler-not_two other s h k = k

handle_all-not_two :
    (signals : List Signal) (s : State)
    → All (λ signal. signal ≢ sighup) signals
    → s.stop_request ≢ 2
    → (handle_all signals s).stop_request ≢ 2
unfolding handle_all
handle_all-not_two [] s h k = k
handle_all-not_two (signal ∷ signals) s (h, hs) k =
    handle_all-not_two signals (signal_handler signal s) hs (signal_handler-not_two signal s h k)

-- Where the loop has been left.
abbrev LeftNotTwo : LoopEnd → Type 0
LeftNotTwo (left s) = s.stop_request ≢ 2
LeftNotTwo (blocked s) = Unit

test_again-not_two :
    (s : State) (rest : LoopEnd)
    → s.stop_request ≢ 2
    → LeftNotTwo rest
    → LeftNotTwo (test_again s rest)
test_again-not_two s rest k h = elim (Bool-cases (s.stop_request == 0)) [
  | inl go ↦ rw go h
  | inr stop ↦ rw stop k
]

receive-not_two :
    (outs : List (ℕ × ℕ)) (events : List Event) (s : State)
    → All NoReload events
    → s.stop_request ≢ 2
    → LeftNotTwo (receive outs events s)
unfolding receive send_all
receive-not_two outs [] s h k = tt
receive-not_two outs (message bytes ∷ events) s (h, hs) k =
    test_again-not_two (send_all outs bytes s) _ k
      (receive-not_two outs events (send_all outs bytes s) hs k)
receive-not_two outs (recv_error ∷ events) s (h, hs) k =
    test_again-not_two s _ k (receive-not_two outs events s hs k)
receive-not_two outs (interrupted signal ∷ events) s (h, hs) k = λ e. absurd (omega arith)
receive-not_two outs (before_test signal ∷ events) s (h, hs) k =
    let k' = signal_handler-not_two signal s h k in
    test_again-not_two (signal_handler signal s) _ k'
      (receive-not_two outs events (signal_handler signal s) hs k')
receive-not_two outs (behind_test signal ∷ events) s (h, hs) k =
    receive-not_two outs events (signal_handler signal s) hs (signal_handler-not_two signal s h k)

-- The end of a pass, with a state in which a reload would have been asked for.
abbrev NotRestarted : SessionEnd → Type 0
NotRestarted (restarts s) = ⊥
NotRestarted other_end = Unit

module _ (a : Session) (early : All (λ signal. signal ≢ sighup) a.early)
    (quiet : All NoReload a.events) (late : All (λ signal. signal ≢ sighup) a.late) where
  clean_up-not_two :
      (in_pair : ℕ × ℕ) (outs : List (ℕ × ℕ)) (l : LoopEnd)
      → LeftNotTwo l
      → NotRestarted (after_loop in_pair outs a.in_shut a.late l)
  unfolding clean_up
  clean_up-not_two in_pair outs (blocked s) h = tt
  clean_up-not_two in_pair outs (left s) h =
      let s0 : State = record s {
        blocks = s.blocks - 1;
        shutdowns = s.shutdowns ++ (in_pair ∷ outs);
      } in
      elim (Bool-cases ((handle_all a.late s0).stop_request == 2)) [
        | inl two ↦ absurd (handle_all-not_two a.late s0 late h (ground arith))
        | inr not_two ↦ rw not_two tt
      ]

  outs-not_two :
      (in_pair : ℕ × ℕ) (o : Opened) (s : State)
      → s.stop_request ≢ 2
      → NotRestarted (run_outs in_pair a o s)
  unfolding run_outs main_loop
  outs-not_two in_pair (open_failed outs code) s h = tt
  outs-not_two in_pair (opened outs) s h =
      let s0 : State = record s { attached = s.attached ++ outs } in
      let h' = handle_all-not_two a.early s0 early h in
      clean_up-not_two in_pair outs _ (
        test_again-not_two (handle_all a.early s0) _ h'
          (receive-not_two outs a.events (handle_all a.early s0) quiet h'))

  allocated-not_two :
      (in_pair : ℕ × ℕ) (allocated : Bool) (o : Opened) (s : State)
      → s.stop_request ≢ 2
      → NotRestarted (run_allocated in_pair allocated a o s)
  unfolding run_allocated
  allocated-not_two in_pair false o s h = tt
  allocated-not_two in_pair true o s h =
      outs-not_two in_pair o (record s { blocks = s.blocks + 1 }) h

  connected-not_two :
      (socket endpoint : Option ℕ) (o : Opened) (s : State)
      → s.stop_request ≢ 2
      → NotRestarted (run_connected socket endpoint a o s)
  unfolding run_connected
  connected-not_two none endpoint o s h = tt
  connected-not_two (some socket) none o s h = tt
  connected-not_two (some socket) (some eid) o s h =
      allocated-not_two (socket, eid) a.allocated o
        (record s { attached = s.attached ++ (socket, eid) ∷ [] }) h

  -- Where no SIGHUP arrives but in nn_recv, a pass of `run` does not go back to START, whatever the
  -- operating system answers and however often SIGHUP interrupts nn_recv.
  pub run_session-no_reload : (bind : Bool) (s s' : State) → run_session bind a s ≢ restarts s'
  unfolding run_session
  run_session-no_reload bind s s' e = subst NotRestarted e (
      connected-not_two a.in_socket a.in_endpoint (open_outs bind a.outs)
        (record s { stop_request = 0 }) (λ z. absurd (omega arith)))
