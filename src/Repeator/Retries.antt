-- ===== src/Repeator/Retries.antt =====
-- `runner` of repeator.cpp, which calls `run` again as long as there are retries left.
use pkt.Common.{
  ℕ, ◌+◌, ◌≤◌, ◌<◌, ◌≡◌, ◌≢◌, ◌⊎◌, Bool, List, [], ◌∷◌, ◌==◌, leb, if◌then◌else◌, arith, Bool-cases,
  inl, inr,
}
use pkt.Repeator.{Signal, State, handle_all, Session, RunEnd, returned, running, run}

-- `runner` is done after so many calls of `run`, with the state and `reslt`; or `run` still runs.
pub data RunnerEnd : Type 0 where
  done : ℕ → State → ℕ → RunnerEnd
  in_run : ℕ → State → RunnerEnd

-- What the environment does in one call of `run`, and the signals between its return and the next
-- test of the flag.
pub record Call : Type 0 where
  pub sessions : List Session
  pub signals : List Signal

-- The loop behind the call number `n`, counted from 0; `again` is its next round.
after_run : ℕ → ℕ → List Signal → RunEnd → (State → ℕ → RunnerEnd) → RunnerEnd
after_run retries n signals (running s) again = in_run (n + 1) s
after_run retries n signals (returned s code rest) again =
    let s' = handle_all signals s in
    let more = again s' code in if leb retries n then done (n + 1) s' code else more

-- The loop after `n` calls, with the last result in `reslt`.
runner_loop : Bool → ℕ → ℕ → ℕ → List Call → State → RunnerEnd
unfolding after_run
runner_loop bind retries n reslt [] s = if s.stop_request == 0 then in_run n s else done n s reslt
runner_loop bind retries n reslt (call ∷ calls) s =
    let round =
      after_run retries n call.signals (run bind call.sessions s)
        (λ s' code. runner_loop bind retries (n + 1) code calls s') in
    if s.stop_request == 0 then round else done n s reslt

-- `runner` with a configuration of so many retries; `reslt` is 0 before it.
unfoldable pub runner : Bool → ℕ → List Call → State → RunnerEnd
unfolding runner_loop
runner bind retries calls s = runner_loop bind retries 0 0 calls (record s { stop_request = 0 })

-- At most one call more than there are retries, and all of them unless the flag has been set.
abbrev pub Within : ℕ → RunnerEnd → Type 0
Within retries (in_run n s) = n ≤ retries + 1
Within retries (done n s reslt) = (n ≤ retries + 1) × ((n ≡ retries + 1) ⊎ (s.stop_request ≢ 0))

after_run-Within :
    (retries n : ℕ) (signals : List Signal) (e : RunEnd) (again : State → ℕ → RunnerEnd)
    → n ≤ retries
    → ((s : State) (code : ℕ) → n < retries → Within retries (again s code))
    → Within retries (after_run retries n signals e again)
unfolding after_run
after_run-Within retries n signals (running s) again h next = omega arith
after_run-Within retries n signals (returned s code rest) again h next =
    elim (Bool-cases (leb retries n)) [
      | inl last ↦ rw last (omega arith, inl (ground arith))
      | inr more ↦ rw more (next (handle_all signals s) code (ground arith))
    ]

runner_loop-Within :
    (bind : Bool) (retries n reslt : ℕ) (calls : List Call) (s : State)
    → n ≤ retries
    → Within retries (runner_loop bind retries n reslt calls s)
unfolding runner_loop
runner_loop-Within bind retries n reslt [] s h = elim (Bool-cases (s.stop_request == 0)) [
  | inl go ↦ rw go (omega arith)
  | inr stop ↦ rw stop (omega arith, inr (ground arith))
]
runner_loop-Within bind retries n reslt (call ∷ calls) s h =
    elim (Bool-cases (s.stop_request == 0)) [
      | inl go ↦ rw go (
          after_run-Within retries n call.signals (run bind call.sessions s)
            (λ s' code. runner_loop bind retries (n + 1) code calls s') h
            (λ s' code less. runner_loop-Within bind retries (n + 1) code calls s' (omega arith)))
      | inr stop ↦ rw stop (omega arith, inr (ground arith))
    ]

-- `runner` calls `run` at most once more than it has retries, and if it ends it has made all these
-- calls, or the flag has been set.
pub runner-Within :
    (bind : Bool) (retries : ℕ) (calls : List Call) (s : State)
    → Within retries (runner bind retries calls s)
unfolding runner
runner-Within bind retries calls s =
    runner_loop-Within bind retries 0 0 calls (record s { stop_request = 0 }) (omega arith)
