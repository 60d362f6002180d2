-- ===== src/Repeator.antt =====
-- The repeator of repeator.cpp, which sends each message of one nanomsg socket to several others: its
-- stop and reload protocol (`stop`, `reload`, `signalHandler`, `run`, `runner`). What nanomsg, malloc
-- and the operating system answer, and when a signal arrives, is an argument: a `Session` for each
-- pass of `run` from its label START. A file descriptor is a number, an error code is given by its
-- negative, and the logging and the pauses are left out.
pub mod Reload
pub mod Forward
pub mod Endpoints
pub mod Retries
mod Runs
use pkt.Common.{
  ℕ, zero, suc, ◌+◌, ◌-◌, Bool, true, false, Option, none, some, List, [], ◌∷◌, ◌++◌, map, ◌==◌,
  if◌then◌else◌,
}

-- the error codes of errorcodes.h that `run` returns
abbrev pub err_ok : ℕ
err_ok = 0

abbrev pub errcode_nn_socket : ℕ
errcode_nn_socket = 16

abbrev pub errcode_nn_connect : ℕ
errcode_nn_connect = 17

abbrev pub errcode_nn_bind : ℕ
errcode_nn_bind = 18

abbrev pub errcode_nn_shutdown : ℕ
errcode_nn_shutdown = 20

abbrev pub errcode_nn_set_socket_option : ℕ
errcode_nn_set_socket_option = 23

abbrev pub errcode_no_memory : ℕ
errcode_no_memory = 29

pub data Signal : Type 0 where
  sigint : Signal
  sighup : Signal
  other : Signal

-- What a program run has changed so far: the flag of its configuration, the blocks that are not freed,
-- the endpoints that it has attached to sockets, those that it has called nn_shutdown for, in order
-- and whatever the call has answered, and the messages that it has passed to nn_send, with the socket.
pub record State : Type 0 where
  pub stop_request : ℕ
  pub blocks : ℕ
  pub attached : List (ℕ × ℕ)
  pub shutdowns : List (ℕ × ℕ)
  pub sent : List (ℕ × List ℕ)

-- signalHandler, with `stop` and `reload`
unfoldable pub signal_handler : Signal → State → State
signal_handler sigint s = record s { stop_request = 1 }
signal_handler sighup s = record s { stop_request = 2 }
signal_handler other s = s

unfoldable pub handle_all : List Signal → State → State
unfolding signal_handler
handle_all [] s = s
handle_all (signal ∷ signals) s = handle_all signals (signal_handler signal s)

-- What happens while the loop of `run` runs. A signal either interrupts nn_recv, which then fails with
-- EINTR, or arrives elsewhere in the loop: before the test of `stop_request`, or behind it but before
-- nn_recv waits.
pub data Event : Type 0 where
  message : List ℕ → Event
  recv_error : Event
  interrupted : Signal → Event
  before_test : Signal → Event
  behind_test : Signal → Event

-- The answers for an output socket: that of nn_socket, of nn_setsockopt, and of nn_bind or nn_connect;
-- `none` is a negative one.
pub record OutAnswers : Type 0 where
  pub socket : Option ℕ
  pub option_set : Bool
  pub endpoint : Option ℕ

-- The answers in one pass of `run`, with the signals before the loop and behind it.
pub record Session : Type 0 where
  pub in_socket : Option ℕ
  pub in_endpoint : Option ℕ
  pub allocated : Bool
  pub outs : List OutAnswers
  pub early : List Signal
  pub events : List Event
  pub in_shut : Bool
  pub late : List Signal

abbrev pub with_events : Session → List Event → Session
with_events a events = record a { events = events }

-- The output sockets with their endpoints, or a return with an error, with those attached before it.
pub data Opened : Type 0 where
  opened : List (ℕ × ℕ) → Opened
  open_failed : List (ℕ × ℕ) → ℕ → Opened

abbrev pub put_front : ℕ × ℕ → Opened → Opened
put_front out (opened rest) = opened (out ∷ rest)
put_front out (open_failed rest code) = open_failed (out ∷ rest) code

-- One round of the loop that opens the output sockets; `bind` is the option of the configuration.
attach_out : Bool → ℕ → Bool → Option ℕ → Opened → Opened
attach_out true socket option_set none rest = open_failed [] errcode_nn_bind
attach_out true socket option_set (some eid) rest = put_front (socket, eid) rest
attach_out false socket false endpoint rest = open_failed [] errcode_nn_set_socket_option
attach_out false socket true none rest = open_failed [] errcode_nn_connect
attach_out false socket true (some eid) rest = put_front (socket, eid) rest

open_out : Bool → Option ℕ → Bool → Option ℕ → Opened → Opened
unfolding attach_out
open_out bind none option_set endpoint rest = open_failed [] errcode_nn_socket
open_out bind (some socket) option_set endpoint rest =
    attach_out bind socket option_set endpoint rest

unfoldable pub open_outs : Bool → List OutAnswers → Opened
unfolding open_out
open_outs bind [] = opened []
open_outs bind (a ∷ outs) = open_out bind a.socket a.option_set a.endpoint (open_outs bind outs)

-- One message to all output sockets; what nn_send returns is only logged.
unfoldable pub send_all : List (ℕ × ℕ) → List ℕ → State → State
send_all outs bytes s = record s { sent = s.sent ++ map (λ out. (out.0, bytes)) outs }

-- The loop of `run` has been left, or waits in nn_recv.
pub data LoopEnd : Type 0 where
  left : State → LoopEnd
  blocked : State → LoopEnd

-- while (!config->stop_request), with the rest of the loop as an argument
abbrev pub test_again : State → LoopEnd → LoopEnd
test_again s rest = if s.stop_request == 0 then rest else left s

-- The loop at nn_recv.
unfoldable pub receive : List (ℕ × ℕ) → List Event → State → LoopEnd
unfolding signal_handler send_all
receive outs [] s = blocked s
receive outs (message bytes ∷ events) s =
    let s' = send_all outs bytes s in test_again s' (receive outs events s')
receive outs (recv_error ∷ events) s = test_again s (receive outs events s)
receive outs (interrupted signal ∷ events) s =
    left (record (signal_handler signal s) { stop_request = 1 })
receive outs (before_test signal ∷ events) s =
    let s' = signal_handler signal s in test_again s' (receive outs events s')
receive outs (behind_test signal ∷ events) s = receive outs events (signal_handler signal s)

unfoldable pub main_loop : List (ℕ × ℕ) → List Event → State → LoopEnd
main_loop outs events s = test_again s (receive outs events s)

-- The end of a pass: a return with a code, a jump back to START, or neither.
pub data SessionEnd : Type 0 where
  returns : State → ℕ → SessionEnd
  restarts : State → SessionEnd
  waits : State → SessionEnd

-- What stands behind the loop. The results of the output sockets stay in a variable of their loop.
unfoldable pub clean_up : ℕ × ℕ → List (ℕ × ℕ) → Bool → List Signal → State → SessionEnd
unfolding handle_all
clean_up in_pair outs in_shut late s =
    let s' =
      handle_all late
        (record s { blocks = s.blocks - 1; shutdowns = s.shutdowns ++ (in_pair ∷ outs) }) in
    if s'.stop_request == 2
    then restarts s'
    else returns s' (if in_shut then err_ok else errcode_nn_shutdown)

abbrev pub after_loop : ℕ × ℕ → List (ℕ × ℕ) → Bool → List Signal → LoopEnd → SessionEnd
after_loop in_pair outs in_shut late (left s) = clean_up in_pair outs in_shut late s
after_loop in_pair outs in_shut late (blocked s) = waits s

-- The part behind the input socket and the buffer.
unfoldable pub run_outs : ℕ × ℕ → Session → Opened → State → SessionEnd
unfolding main_loop clean_up handle_all
run_outs in_pair a (open_failed outs code) s =
    returns (record s { attached = s.attached ++ outs }) code
run_outs in_pair a (opened outs) s =
    after_loop in_pair outs a.in_shut a.late
      (main_loop outs a.events (handle_all a.early (record s { attached = s.attached ++ outs })))

unfoldable pub run_allocated : ℕ × ℕ → Bool → Session → Opened → State → SessionEnd
unfolding run_outs
run_allocated in_pair false a outs s = returns s errcode_no_memory
run_allocated in_pair true a outs s = run_outs in_pair a outs (record s { blocks = s.blocks + 1 })

unfoldable pub run_connected : Option ℕ → Option ℕ → Session → Opened → State → SessionEnd
unfolding run_allocated
run_connected none endpoint a outs s = returns s errcode_nn_socket
run_connected (some socket) none a outs s = returns s errcode_nn_connect
run_connected (some socket) (some eid) a outs s =
    run_allocated (socket, eid) a.allocated a outs
      (record s { attached = s.attached ++ (socket, eid) ∷ [] })

-- One pass of `run` from START.
unfoldable pub run_session : Bool → Session → State → SessionEnd
unfolding run_connected
run_session bind a s =
    run_connected a.in_socket a.in_endpoint a (open_outs bind a.outs)
      (record s { stop_request = 0 })

-- `run`: the answers for as many passes as are made; it still runs where they are used up.
pub data RunEnd : Type 0 where
  returned : State → ℕ → List Session → RunEnd
  running : State → RunEnd

unfoldable pub go_on : SessionEnd → List Session → (State → RunEnd) → RunEnd
go_on (returns s code) rest again = returned s code rest
go_on (restarts s) rest again = again s
go_on (waits s) rest again = running s

unfoldable pub run : Bool → List Session → State → RunEnd
unfolding go_on
run bind [] s = running s
run bind (a ∷ sessions) s = go_on (run_session bind a s) sessions (run bind sessions)
