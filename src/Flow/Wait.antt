-- ===== src/Flow/Wait.antt =====
-- internal/server/protocol/binary.go, `waitFlowSendSlot`: a sender polls `TrySend` with a growing
-- pause until the chunk is admitted or the time is up. Times are in milliseconds. What the other
-- goroutines do in the pause after poll `k` is `env k`: by how much the pause is longer than what
-- was asked for, and the calls that they make of the controller.
use inlets.Common.{
  Bool, true, ℕ, zero, suc, ◌+◌, ◌*◌, ◌/◌, ◌≤◌, ◌<◌, min, ◌≡◌, ◌≢◌, List, ◌++◌, Bytes, false, All,
  arith, ltb, ltb→le, if◌then◌else◌, Outcome, ok, err, ◌>>=◌, Bool-cases, inl, inr,
}
use inlets.Common.Int.{ℤ}
use inlets.Flow.{FlowController, Call, Signal, try_send, run}
use inlets.Flow.Credit.{GivesNoCredit, try_send_stays_refused}

-- The model's fuel ran out.
pub data WaitError : Type 0 where
  out_of_fuel : WaitError

-- The controller, whether the chunk was admitted in time, and the signals of the polls.
abbrev pub Waited : Type 0
Waited = FlowController × Bool × List Signal

abbrev pub Environment : Type 0
Environment = ℕ → ℕ × List Call

-- `flowSendWaitTimeout`, the first `backoff` and `maxBackoff`
abbrev pub flow_send_wait_timeout : ℕ
flow_send_wait_timeout = 60000

abbrev pub first_backoff : ℕ
first_backoff = 5

abbrev pub max_backoff : ℕ
max_backoff = 100

-- The loop of `waitFlowSendSlot`.
unfoldable pub wait_loop :
    ℕ → Environment → FlowController → Bytes → ℤ → ℕ → ℕ → ℕ → Outcome WaitError Waited
wait_loop zero env fc id size elapsed backoff k = err out_of_fuel
wait_loop (suc fuel) env fc id size elapsed backoff k =
    let (fc', admitted, signals) = try_send fc id size in
    let rest = (do
      (fc'', result, more) ←
          wait_loop fuel env (run fc' (env k).1) id size (elapsed + backoff + (env k).0)
            (min max_backoff (backoff * 2)) (k + 1)
      ok (fc'', result, signals ++ more)) in
    if admitted
    then ok (fc', true, signals)
    else if ltb flow_send_wait_timeout elapsed
    then ok (fc', false, signals)
    else rest

-- A poll every 5 ms at the soonest, one at the start and one past the deadline.
abbrev pub polls : ℕ
polls = flow_send_wait_timeout / first_backoff + 2

unfoldable pub wait_flow_send_slot :
    Environment → FlowController → Bytes → ℤ → Outcome WaitError Waited
unfolding wait_loop
wait_flow_send_slot env fc id size = wait_loop polls env fc id size 0 first_backoff 0

wait_loop_ends :
    (fuel : ℕ) (env : Environment) (fc : FlowController) (id : Bytes) (size : ℤ)
    (elapsed backoff k : ℕ)
    → 5 ≤ backoff
    → flow_send_wait_timeout + 5 < elapsed + 5 * fuel
    → 0 < fuel
    → wait_loop fuel env fc id size elapsed backoff k ≢ err out_of_fuel
unfolding wait_loop
wait_loop_ends zero env fc id size elapsed backoff k b f p = absurd (omega arith)
wait_loop_ends (suc fuel) env fc id size elapsed backoff k b f p =
    elim (Bool-cases (try_send fc id size).1) [
      | inl admitted ↦ rw admitted (λ e. cc)
      | inr refused ↦ elim (Bool-cases (ltb flow_send_wait_timeout elapsed)) [
        | inl late ↦ rw (refused, late) (λ e. cc)
        | inr early ↦
            rw (refused, early)
              (ground (
                arith,
                wait_loop_ends fuel env (run (try_send fc id size).0 (env k).1) id size
                    (elapsed + backoff + (env k).0) (min max_backoff (backoff * 2)) (k + 1)
                    (omega arith) (omega arith) (omega (arith, ltb→le _ _ early)),
              ))
      ]
    ]

wait_loop_refused :
    (fuel : ℕ) (env : Environment) (fc : FlowController) (id : Bytes) (size : ℤ)
    (elapsed backoff k : ℕ)
    → 5 ≤ backoff
    → flow_send_wait_timeout + 5 < elapsed + 5 * fuel
    → 0 < fuel
    → (try_send fc id size).1 ≡ false
    → ((j : ℕ) → All (GivesNoCredit id) (env j).1)
    → (fc' : FlowController) × (signals : List Signal) × (wait_loop fuel env fc id size elapsed
          backoff k
        ≡ ok (fc', false, signals))
unfolding wait_loop
wait_loop_refused zero env fc id size elapsed backoff k b f p r n = absurd (omega arith)
wait_loop_refused (suc fuel) env fc id size elapsed backoff k b f p r n =
    elim (Bool-cases (ltb flow_send_wait_timeout elapsed)) [
      | inl late ↦ ((try_send fc id size).0, (try_send fc id size).2, rw (r, late))
      | inr early ↦
          let (fc', signals, e) =
            wait_loop_refused fuel env (run (try_send fc id size).0 (env k).1) id size
              (elapsed + backoff + (env k).0) (min max_backoff (backoff * 2)) (k + 1) (omega arith)
              (omega arith) (omega (arith, ltb→le _ _ early))
              (try_send_stays_refused fc id size (env k).1 r (n k)) n in
          (fc', (try_send fc id size).2 ++ signals, rw (r, early, e))
    ]

-- The wait ends: the polls that the model allows are enough, whatever the other goroutines do.
pub wait_flow_send_slot_ends :
    (env : Environment) (fc : FlowController) (id : Bytes) (size : ℤ)
    → wait_flow_send_slot env fc id size ≢ err out_of_fuel
unfolding wait_flow_send_slot
wait_flow_send_slot_ends env fc id size =
    wait_loop_ends polls env fc id size 0 first_backoff 0 (omega arith) (omega arith) (omega arith)

-- A chunk that is refused at first and gets no credit while it waits ends in the timeout error.
pub wait_without_credit_times_out :
    (env : Environment) (fc : FlowController) (id : Bytes) (size : ℤ)
    → (try_send fc id size).1 ≡ false
    → ((k : ℕ) → All (GivesNoCredit id) (env k).1)
    → (fc' : FlowController) × (signals : List Signal) × (wait_flow_send_slot env fc id size
        ≡ ok (fc', false, signals))
unfolding wait_flow_send_slot
wait_without_credit_times_out env fc id size r n =
    wait_loop_refused polls env fc id size 0 first_backoff 0 (omega arith) (omega arith)
      (omega arith) r n
