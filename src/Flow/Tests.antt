-- ===== src/Flow/Tests.antt =====
-- Flow control at concrete inputs: a window of 100 bytes.
use inlets.Common.{
  List, [], ◌∷◌, ◌≡◌, refl, ◌≢◌, true, false, some, Bytes, bytes_key, Bytes-discrete, ℕ_discrete,
  codes, All, ok, err, arith,
}
use inlets.Common.Int.{pos, ◌+ℤ◌, ◌-ℤ◌}
use inlets.Common.Dict
use inlets.Flow.{
  FlowController, WindowState, Signal, Call, sends, receives, releases, removes,
  new_flow_controller, try_send, receive, release_receive_window, released, remove_stream, run,
  step, get_window_state, window_of,
}
use inlets.Flow.Windows.{InBounds, IsSized, run_new-InBounds}
use inlets.Flow.Credit.{GivesNoCredit, try_send_stays_refused}
use inlets.Flow.Wait.{
  Environment, wait_flow_send_slot, wait_flow_send_slot_ends, wait_without_credit_times_out,
  out_of_fuel,
}

abbrev stream : Bytes
stream = codes "s"

abbrev start : FlowController
start = new_flow_controller (pos 100) true

abbrev half_used : FlowController
half_used = run start (sends stream (pos 60) ∷ [])

refuses_second : (try_send half_used stream (pos 60)).1 ≡ false
unfolding run step try_send window_of new_flow_controller Dict.get Dict.put ◌+ℤ◌ Bytes-discrete
    ℕ_discrete
refuses_second = refl

abbrev busy : List Call
busy =
    receives stream (pos 30)
    ∷ releases stream (pos 10)
    ∷ sends (codes "t") (pos 5)
    ∷ removes (codes "t")
    ∷ []

busy-GivesNoCredit : All (GivesNoCredit stream) busy
busy-GivesNoCredit = ground arith

busy-IsSized : All IsSized busy
busy-IsSized = ground arith

try_send_stays_refused_example :
    (try_send (run (try_send half_used stream (pos 60)).0 busy) stream (pos 60)).1 ≡ false
try_send_stays_refused_example =
    try_send_stays_refused half_used stream (pos 60) busy refuses_second busy-GivesNoCredit

-- Before each poll another goroutine receives and releases.
abbrev others : Environment
others = λ k. (k, busy)

wait_flow_send_slot_ends_example :
    wait_flow_send_slot others half_used stream (pos 60) ≢ err out_of_fuel
wait_flow_send_slot_ends_example = wait_flow_send_slot_ends others half_used stream (pos 60)

wait_without_credit_times_out_example :
    (fc' : FlowController) × (signals : List Signal) × (wait_flow_send_slot others half_used stream
        (pos 60)
      ≡ ok (fc', false, signals))
wait_without_credit_times_out_example =
    wait_without_credit_times_out others half_used stream (pos 60) refuses_second
      (λ k. busy-GivesNoCredit)

abbrev after_busy : WindowState
after_busy = record { send_window = pos 0; receive_window = pos 80; max_window_size = pos 100 }

ends_there : get_window_state (run start busy) stream ≡ some after_busy
unfolding run step try_send receive release_receive_window released remove_stream window_of
    new_flow_controller get_window_state Dict.get Dict.put Dict.remove ◌+ℤ◌ ◌-ℤ◌ Bytes-discrete
    ℕ_discrete
ends_there = refl

run_new-InBounds_example : InBounds after_busy
run_new-InBounds_example =
    run_new-InBounds (pos 100) true busy stream after_busy omega arith busy-IsSized ends_there
