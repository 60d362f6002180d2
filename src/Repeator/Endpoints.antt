-- ===== src/Repeator/Endpoints.antt =====
-- What every pass of `run` does with the endpoints that it attaches and with its buffer.
use pkt.Common.{
  ℕ, ◌+◌, ◌-◌, ◌≤◌, ◌≡◌, ◌≢◌, ◌⊎◌, refl, sym, ap, ◌∙◌, Bool, true, false, Option, none, some, List,
  [], ◌∷◌, ◌++◌, append-nil, append_assoc, ◌==◌, if◌then◌else◌, arith, inl, inr, Bool-cases,
}
use pkt.Repeator.{
  Signal, sigint, sighup, other, State, signal_handler, handle_all, Event, message, recv_error,
  interrupted, before_test, behind_test, Session, OutAnswers, Opened, opened, open_failed, open_out,
  attach_out, put_front, open_outs, send_all, LoopEnd, left, blocked, test_again, receive,
  main_loop, SessionEnd, returns, restarts, waits, clean_up, after_loop, run_outs, run_allocated,
  run_connected, run_session, err_ok, errcode_nn_shutdown,
}

-- The same blocks and endpoints.
abbrev Same : State → State → Type 0
Same s t = (t.blocks ≡ s.blocks) × (t.attached ≡ s.attached) × (t.shutdowns ≡ s.shutdowns)

signal_handler-Same : (signal : Signal) (s : State) → Same s (signal_handler signal s)
unfolding signal_handler
signal_handler-Same sigint s = (refl, refl, refl)
signal_handler-Same sighup s = (refl, refl, refl)
signal_handler-Same other s = (refl, refl, refl)

Same-trans : (s t u : State) → Same s t → Same t u → Same s u
Same-trans s t u (a, b, c) (d, e, f) = (d ∙ a, e ∙ b, f ∙ c)

handle_all-Same : (signals : List Signal) (s : State) → Same s (handle_all signals s)
unfolding handle_all
handle_all-Same [] s = (refl, refl, refl)
handle_all-Same (signal ∷ signals) s =
    let t = signal_handler signal s in
    Same-trans s t (handle_all signals t) (signal_handler-Same signal s) (handle_all-Same signals t)

abbrev LeftSame : State → LoopEnd → Type 0
LeftSame s (left t) = Same s t
LeftSame s (blocked t) = Unit

LeftSame-trans : (s t : State) (l : LoopEnd) → Same s t → LeftSame t l → LeftSame s l
LeftSame-trans s t (left u) h k = Same-trans s t u h k
LeftSame-trans s t (blocked u) h k = tt

test_again-Same :
    (s t : State) (rest : LoopEnd) → Same s t → LeftSame t rest → LeftSame s (test_again t rest)
test_again-Same s t rest h k = elim (Bool-cases (t.stop_request == 0)) [
  | inl go ↦ rw go (LeftSame-trans s t rest h k)
  | inr stop ↦ rw stop h
]

receive-Same :
    (outs : List (ℕ × ℕ)) (events : List Event) (s : State) → LeftSame s (receive outs events s)
unfolding receive send_all
receive-Same outs [] s = tt
receive-Same outs (message bytes ∷ events) s =
    test_again-Same s (send_all outs bytes s) _ (refl, refl, refl)
      (receive-Same outs events (send_all outs bytes s))
receive-Same outs (recv_error ∷ events) s =
    test_again-Same s s _ (refl, refl, refl) (receive-Same outs events s)
receive-Same outs (interrupted signal ∷ events) s = signal_handler-Same signal s
receive-Same outs (before_test signal ∷ events) s =
    test_again-Same s (signal_handler signal s) _ (signal_handler-Same signal s)
      (receive-Same outs events (signal_handler signal s))
receive-Same outs (behind_test signal ∷ events) s =
    LeftSame-trans s (signal_handler signal s) (receive outs events (signal_handler signal s))
      (signal_handler-Same signal s) (receive-Same outs events (signal_handler signal s))

-- nn_shutdown has been called for all that has been attached since, in the same order, and the buffer
-- is freed.
abbrev pub Balanced : State → State → Type 0
Balanced s t =
    (more : List (ℕ × ℕ)) × (t.attached ≡ s.attached ++ more)
    × (t.shutdowns ≡ s.shutdowns ++ more)
    × (t.blocks ≡ s.blocks)

-- nn_shutdown has not been called, and nothing has been freed.
abbrev pub Abandoned : State → State → Type 0
Abandoned s t =
    (more : List (ℕ × ℕ)) × (t.attached ≡ s.attached ++ more)
    × (t.shutdowns ≡ s.shutdowns)
    × (s.blocks ≤ t.blocks)

-- By whether the input endpoint can be shut down.
abbrev pub EndsWell : Bool → State → SessionEnd → Type 0
EndsWell in_shut s (waits t) = Unit
EndsWell in_shut s (restarts t) = Balanced s t
EndsWell in_shut s (returns t code) =
    ((code ≡ (if in_shut then err_ok else errcode_nn_shutdown)) × Balanced s t)
    ⊎ ((code ≢ err_ok) × (code ≢ errcode_nn_shutdown) × Abandoned s t)

-- The errors of the loop over the output sockets.
abbrev IsOpenError : Opened → Type 0
IsOpenError (opened outs) = Unit
IsOpenError (open_failed outs code) = (code ≢ err_ok) × (code ≢ errcode_nn_shutdown)

put_front-error : (out : ℕ × ℕ) (o : Opened) → IsOpenError o → IsOpenError (put_front out o)
put_front-error out (opened outs) h = tt
put_front-error out (open_failed outs code) h = h

attach_out-error :
    (bind : Bool) (socket : ℕ) (option_set : Bool) (endpoint : Option ℕ) (rest : Opened)
    → IsOpenError rest
    → IsOpenError (attach_out bind socket option_set endpoint rest)
unfolding attach_out
attach_out-error true socket option_set none rest h = (omega arith, omega arith)
attach_out-error true socket option_set (some eid) rest h = put_front-error (socket, eid) rest h
attach_out-error false socket false endpoint rest h = (omega arith, omega arith)
attach_out-error false socket true none rest h = (omega arith, omega arith)
attach_out-error false socket true (some eid) rest h = put_front-error (socket, eid) rest h

open_out-error :
    (bind : Bool) (socket : Option ℕ) (option_set : Bool) (endpoint : Option ℕ) (rest : Opened)
    → IsOpenError rest
    → IsOpenError (open_out bind socket option_set endpoint rest)
unfolding open_out
open_out-error bind none option_set endpoint rest h = (omega arith, omega arith)
open_out-error bind (some socket) option_set endpoint rest h =
    attach_out-error bind socket option_set endpoint rest h

open_outs-error : (bind : Bool) (outs : List OutAnswers) → IsOpenError (open_outs bind outs)
unfolding open_outs
open_outs-error bind [] = tt
open_outs-error bind (a ∷ outs) =
    open_out-error bind a.socket a.option_set a.endpoint (open_outs bind outs)
      (open_outs-error bind outs)

module _ (a : Session) (in_pair : ℕ × ℕ) (s : State) where
  -- The state with the input endpoint and the buffer.
  abbrev begun : State
  begun = record s {
    stop_request = 0;
    blocks = s.blocks + 1;
    attached = s.attached ++ in_pair ∷ [];
  }

  clean_up-Balanced :
      (outs : List (ℕ × ℕ)) (t : State)
      → Same (record begun { attached = begun.attached ++ outs }) t
      → EndsWell a.in_shut s (clean_up in_pair outs a.in_shut a.late t)
  unfolding clean_up
  clean_up-Balanced outs t (same_blocks, same_attached, same_shut) =
      let t0 : State = record t {
        blocks = t.blocks - 1;
        shutdowns = t.shutdowns ++ (in_pair ∷ outs);
      } in
      let (b, c, d) = handle_all-Same a.late t0 in
      let attached_all = c ∙ same_attached ∙ append_assoc s.attached (in_pair ∷ []) outs in
      let shut_all = d ∙ ap (λ (l : List (ℕ × ℕ)). l ++ (in_pair ∷ outs)) same_shut in
      let freed : (handle_all a.late t0).blocks ≡ s.blocks = omega (arith, b, same_blocks) in
      let balanced : Balanced s (handle_all a.late t0) =
        (in_pair ∷ outs, attached_all, shut_all, freed) in
      elim (Bool-cases ((handle_all a.late t0).stop_request == 2)) [
        | inl reload ↦ rw reload balanced
        | inr stop ↦ rw stop (inl (refl, balanced))
      ]

  after_loop-EndsWell :
      (outs : List (ℕ × ℕ)) (l : LoopEnd)
      → LeftSame (record begun { attached = begun.attached ++ outs }) l
      → EndsWell a.in_shut s (after_loop in_pair outs a.in_shut a.late l)
  after_loop-EndsWell outs (left t) h = clean_up-Balanced outs t h
  after_loop-EndsWell outs (blocked t) h = tt

  outs-EndsWell : (o : Opened) → IsOpenError o → EndsWell a.in_shut s (run_outs in_pair a o begun)
  unfolding run_outs main_loop
  outs-EndsWell (open_failed outs code) (not_ok, not_shutdown) = inr (
    not_ok,
    not_shutdown,
    (in_pair ∷ outs, append_assoc s.attached (in_pair ∷ []) outs, refl, omega arith),
  )
  outs-EndsWell (opened outs) h =
      let t0 : State = record begun { attached = begun.attached ++ outs } in
      let t : State = handle_all a.early t0 in
      after_loop-EndsWell outs (test_again t (receive outs a.events t)) (
        test_again-Same t0 t (receive outs a.events t) (handle_all-Same a.early t0)
          (receive-Same outs a.events t))

  allocated-EndsWell :
      (allocated : Bool) (o : Opened)
      → IsOpenError o
      → EndsWell a.in_shut s
          (run_allocated in_pair allocated a o (record begun { blocks = s.blocks }))
  unfolding run_allocated
  allocated-EndsWell false o h =
      inr (omega arith, omega arith, (in_pair ∷ [], refl, refl, omega arith))
  allocated-EndsWell true o h = outs-EndsWell o h

connected-EndsWell :
    (a : Session) (s : State) (socket endpoint : Option ℕ) (o : Opened)
    → IsOpenError o
    → EndsWell a.in_shut s (run_connected socket endpoint a o (record s { stop_request = 0 }))
unfolding run_connected
connected-EndsWell a s none endpoint o h =
    inr (omega arith, omega arith, ([], sym (append-nil s.attached), refl, omega arith))
connected-EndsWell a s (some socket) none o h =
    inr (omega arith, omega arith, ([], sym (append-nil s.attached), refl, omega arith))
connected-EndsWell a s (some socket) (some eid) o h =
    allocated-EndsWell a (socket, eid) s a.allocated o h

-- Whatever the operating system answers and whatever signals arrive: a pass of `run` that goes back to
-- START has called nn_shutdown for all endpoints that it has attached, in their order, and freed its
-- buffer. So has a pass that returns 0, as it does where the input endpoint can be shut down, or
-- ERRCODE_NN_SHUTDOWN, as it does where it can not. A pass that returns any other code has called
-- nn_shutdown for none of them, and freed nothing.
pub run_session-EndsWell :
    (bind : Bool) (a : Session) (s : State) → EndsWell a.in_shut s (run_session bind a s)
unfolding run_session
run_session-EndsWell bind a s =
    connected-EndsWell a s a.in_socket a.in_endpoint (open_outs bind a.outs)
      (open_outs-error bind a.outs)
