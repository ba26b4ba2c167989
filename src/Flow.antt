-- ===== src/Flow.antt =====
-- internal/server/protocol/flow_controller.go: the send and receive windows of each stream. Each
-- method holds the controller's lock from its first line to its last, so it is one step; what it
-- tells `onBackpressure` comes back as a list of signals, emitted with the lock still held.
pub mod Windows
pub mod Credit
pub mod Wait
pub mod Restore
mod Tests
use inlets.Common.{
  ℕ, List, [], ◌∷◌, Bool, true, false, ◌&&◌, Option, none, some, Bytes, bytes_key, if◌then◌else◌,
}
use inlets.Common.Int.{ℤ, pos, ◌+ℤ◌, ◌-ℤ◌, ltb_ℤ, leb_ℤ, half}
use inlets.Common.Dict
use inlets.Common.Dict.{Dict}

pub record WindowState : Type 0 where
  pub send_window : ℤ
  pub receive_window : ℤ
  pub max_window_size : ℤ

pub record FlowController : Type 0 where
  pub windows : Dict Bytes WindowState
  pub default_max_window_size : ℤ
  -- whether `onBackpressure` is not nil
  pub on_backpressure : Bool

-- A call of `onBackpressure`.
pub record Signal : Type 0 where
  pub stream_id : Bytes
  pub pause : Bool

unfoldable pub new_flow_controller : ℤ → Bool → FlowController
new_flow_controller size callback = record {
  windows = [];
  default_max_window_size = size;
  on_backpressure = callback;
}

abbrev pub fresh_window : ℤ → WindowState
fresh_window size = record { send_window = pos 0; receive_window = size; max_window_size = size }

unfoldable pub signal : FlowController → Bytes → Bool → List Signal
signal fc id pause =
    if fc.on_backpressure then record { stream_id = id; pause = pause } ∷ [] else []

abbrev pub put_window : FlowController → Bytes → WindowState → FlowController
put_window fc id w = record fc { windows = Dict.put id w fc.windows }

unfoldable pub get_window_state : FlowController → Bytes → Option WindowState
get_window_state fc id = Dict.get id fc.windows

-- `windowSize` of `InitializeStream`: the first of the optional sizes, if it is positive
unfoldable pub initial_size : FlowController → List ℤ → ℤ
initial_size fc [] = fc.default_max_window_size
initial_size fc (size ∷ _) = if ltb_ℤ (pos 0) size then size else fc.default_max_window_size

unfoldable pub initialize_stream : FlowController → Bytes → List ℤ → FlowController
unfolding initial_size
initialize_stream fc id sizes = put_window fc id (fresh_window (initial_size fc sizes))

unfoldable pub can_send : FlowController → Bytes → ℤ → Bool
can_send fc id size = elim (Dict.get id fc.windows) [
  | none ↦ true
  | some w ↦ leb_ℤ (w.send_window +ℤ size) w.max_window_size
]

-- the window of a stream, made on first use
unfoldable pub window_of : FlowController → Bytes → WindowState
window_of fc id = elim (Dict.get id fc.windows) [
  | none ↦ fresh_window fc.default_max_window_size
  | some w ↦ w
]

unfoldable pub try_send : FlowController → Bytes → ℤ → FlowController × Bool × List Signal
try_send fc id size =
    let w = window_of fc id in
    if ltb_ℤ w.max_window_size (w.send_window +ℤ size)
    then (put_window fc id w, false, signal fc id true)
    else (put_window fc id (record w { send_window = w.send_window +ℤ size }), true, [])

unfoldable pub send : FlowController → Bytes → ℤ → FlowController × Bool × List Signal
unfolding try_send
send fc id size = try_send fc id size

unfoldable pub acked : WindowState → ℤ → WindowState
acked w size = record w {
  send_window = if ltb_ℤ size w.send_window then w.send_window -ℤ size else pos 0;
}

unfoldable pub on_ack : FlowController → Bytes → ℤ → FlowController × List Signal
on_ack fc id size = elim (Dict.get id fc.windows) [
  | none ↦ (fc, [])
  | some w ↦
      let w' = acked w size in
      (
        put_window fc id w',
        if ltb_ℤ w'.send_window (half w'.max_window_size) then signal fc id false else [],
      )
]

unfoldable pub receive : FlowController → Bytes → ℤ → FlowController × Bool × List Signal
receive fc id size =
    let w = window_of fc id in
    if ltb_ℤ w.receive_window size
    then (put_window fc id w, false, signal fc id true)
    else (put_window fc id (record w { receive_window = w.receive_window -ℤ size }), true, [])

unfoldable pub released : WindowState → ℤ → WindowState
released w size =
    let next = w.receive_window +ℤ size in
    record w { receive_window = if ltb_ℤ w.max_window_size next then w.max_window_size else next }

unfoldable pub release_receive_window : FlowController → Bytes → ℤ → FlowController × List Signal
release_receive_window fc id size = elim (Dict.get id fc.windows) [
  | none ↦ (fc, [])
  | some w ↦
      let w' = released w size in
      (
        put_window fc id w',
        if ltb_ℤ (half w'.max_window_size) w'.receive_window then signal fc id false else [],
      )
]

unfoldable pub remove_stream : FlowController → Bytes → FlowController
remove_stream fc id = record fc { windows = Dict.remove id fc.windows }

unfoldable pub clear : FlowController → FlowController
clear fc = record fc { windows = [] }

-- The methods, as the calls that the goroutines of a connection interleave.
pub data Call : Type 0 where
  initializes : Bytes → List ℤ → Call
  sends : Bytes → ℤ → Call
  acks : Bytes → ℤ → Call
  receives : Bytes → ℤ → Call
  releases : Bytes → ℤ → Call
  removes : Bytes → Call
  clears : Call

unfoldable pub step : FlowController → Call → FlowController
unfolding initialize_stream try_send on_ack receive release_receive_window remove_stream clear
step fc (initializes id sizes) = initialize_stream fc id sizes
step fc (sends id size) = (try_send fc id size).0
step fc (acks id size) = (on_ack fc id size).0
step fc (receives id size) = (receive fc id size).0
step fc (releases id size) = (release_receive_window fc id size).0
step fc (removes id) = remove_stream fc id
step fc clears = clear fc

unfoldable pub run : FlowController → List Call → FlowController
unfolding step
run fc [] = fc
run fc (c ∷ cs) = run (step fc c) cs
