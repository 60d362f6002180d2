-- ===== src/Repeator/Runs.antt =====
-- Tests of the repeator, and its theorems at concrete inputs.
use pkt.Common.{◌≡◌, ◌≢◌, refl, true, false, some, List, [], ◌∷◌, ◌++◌}
use pkt.Repeator.{
  errcode_nn_shutdown, sigint, sighup, other, State, message, recv_error, interrupted, before_test,
  behind_test, Session, with_events, OutAnswers, open_outs, returns, restarts, run_session, blocked,
  main_loop, receive,
}
use pkt.Repeator.Reload.{run_session-no_reload}
use pkt.Repeator.Forward.{run_session-Calm}
use pkt.Repeator.Endpoints.{EndsWell, run_session-EndsWell}
use pkt.Repeator.Retries.{Within, runner, runner-Within}

abbrev fresh : State
fresh = record { stop_request = 0; blocks = 0; attached = []; shutdowns = []; sent = [] }

abbrev two_outs : List OutAnswers
two_outs =
    record { socket = some 4; option_set = true; endpoint = some 14 }
    ∷ record { socket = some 5; option_set = true; endpoint = some 15 }
    ∷ []

abbrev session : Session
session = record {
  in_socket = some 3;
  in_endpoint = some 13;
  allocated = true;
  outs = two_outs;
  early = other ∷ [];
  events = [];
  in_shut = true;
  late = [];
}

run_session-Calm_example :
    (run_session false
        (with_events session
          ((message (7 ∷ []) ∷ recv_error ∷ message (8 ∷ []) ∷ []) ++ interrupted sighup ∷ []))
        fresh
      ≡ returns
          (record {
            stop_request = 1;
            blocks = 0;
            attached = (3, 13) ∷ (4, 14) ∷ (5, 15) ∷ [];
            shutdowns = (3, 13) ∷ (4, 14) ∷ (5, 15) ∷ [];
            sent = (4, 7 ∷ []) ∷ (5, 7 ∷ []) ∷ (4, 8 ∷ []) ∷ (5, 8 ∷ []) ∷ [];
          })
          0)
    × (run_session false
          (with_events session
            ((message (7 ∷ []) ∷ recv_error ∷ message (8 ∷ []) ∷ []) ++ before_test sighup ∷ []))
          fresh
        ≡ restarts (record {
          stop_request = 2;
          blocks = 0;
          attached = (3, 13) ∷ (4, 14) ∷ (5, 15) ∷ [];
          shutdowns = (3, 13) ∷ (4, 14) ∷ (5, 15) ∷ [];
          sent = (4, 7 ∷ []) ∷ (5, 7 ∷ []) ∷ (4, 8 ∷ []) ∷ (5, 8 ∷ []) ∷ [];
        }))
unfolding open_outs
run_session-Calm_example =
    run_session-Calm false session 3 13 ((4, 14) ∷ (5, 15) ∷ [])
      (message (7 ∷ []) ∷ recv_error ∷ message (8 ∷ []) ∷ []) [] fresh sighup refl refl refl refl
      (refl, tt) tt (tt, (tt, (tt, tt)))

run_session-no_reload_example :
    run_session true (with_events session (interrupted sighup ∷ [])) fresh ≢ restarts fresh
run_session-no_reload_example =
    run_session-no_reload (with_events session (interrupted sighup ∷ [])) ((λ e. cc), tt) (tt, tt)
      tt true fresh fresh

-- The pass returns ERRCODE_NN_SHUTDOWN.
abbrev failing : Session
failing = record (with_events session (message (7 ∷ []) ∷ interrupted sigint ∷ [])) {
  in_shut = false;
}

run_session-EndsWell_example : EndsWell false fresh (
    returns
      (record {
        stop_request = 1;
        blocks = 0;
        attached = (3, 13) ∷ (4, 14) ∷ (5, 15) ∷ [];
        shutdowns = (3, 13) ∷ (4, 14) ∷ (5, 15) ∷ [];
        sent = (4, 7 ∷ []) ∷ (5, 7 ∷ []) ∷ [];
      })
      errcode_nn_shutdown)
unfolding run_session open_outs receive
run_session-EndsWell_example = run_session-EndsWell true failing fresh

runner-Within_example :
    Within 2 (runner true 2 (record { sessions = session ∷ []; signals = [] } ∷ []) fresh)
runner-Within_example =
    runner-Within true 2 (record { sessions = session ∷ []; signals = [] } ∷ []) fresh

-- A stop request behind the test of the flag waits for the next message.
late_stop :
    main_loop [] (behind_test sigint ∷ []) fresh ≡ blocked (record fresh { stop_request = 1 })
unfolding main_loop receive
late_stop = refl
