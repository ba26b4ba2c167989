-- ===== src/Flow/Windows.antt =====
-- Every window stays within its size, whatever the goroutines of a connection do to it.
use inlets.Common.{
  ◌≡◌, List, [], ◌∷◌, some, Bytes, bytes_key, arith, Option-cases, inl, inr, Bool, false,
  Bool-cases, All,
}
use inlets.Common.Int.{ℤ, pos, ◌≤ℤ◌, ◌+ℤ◌, ◌-ℤ◌, ltb_ℤ}
use inlets.Common.Dict
use inlets.Common.Dict.{get-put, get-remove, get-empty}
use inlets.Flow.{
  WindowState, FlowController, Call, initializes, sends, acks, receives, releases, removes, clears,
  fresh_window, initialize_stream, window_of, try_send, on_ack, acked, receive, released,
  release_receive_window, remove_stream, clear, step, run, put_window, get_window_state,
  new_flow_controller,
}

pub record InBounds (w : WindowState) : Type 0 where
  pub sent : pos 0 ≤ℤ w.send_window
  pub send_fits : w.send_window ≤ℤ w.max_window_size
  pub open_window : pos 0 ≤ℤ w.receive_window
  pub receive_fits : w.receive_window ≤ℤ w.max_window_size

pub record IsValid (fc : FlowController) : Type 0 where
  pub default_size : pos 0 ≤ℤ fc.default_max_window_size
  pub at_key : (id : Bytes) (w : WindowState) → Dict.get id fc.windows ≡ some w → InBounds w

-- The sizes that callers pass are lengths of data.
abbrev pub IsSized : Call → Type 0
IsSized (initializes id sizes) = Unit {0}
IsSized (sends id size) = pos 0 ≤ℤ size
IsSized (acks id size) = pos 0 ≤ℤ size
IsSized (receives id size) = pos 0 ≤ℤ size
IsSized (releases id size) = pos 0 ≤ℤ size
IsSized (removes id) = Unit {0}
IsSized clears = Unit {0}

fresh-InBounds : (size : ℤ) → pos 0 ≤ℤ size → InBounds (fresh_window size)
fresh-InBounds size h = record {
  sent = omega arith;
  send_fits = omega arith;
  open_window = h;
  receive_fits = omega arith;
}

put_window-IsValid :
    {fc : FlowController} (id : Bytes) (w : WindowState)
    → IsValid fc
    → InBounds w
    → IsValid (put_window fc id w)
put_window-IsValid {fc} id w v b = record {
  default_size = v.default_size;
  at_key = λ j x p. grind (arith, get-put id j w fc.windows, v.at_key j x);
}

window_of-InBounds : (fc : FlowController) (id : Bytes) → IsValid fc → InBounds (window_of fc id)
unfolding window_of
window_of-InBounds fc id v = elim (Option-cases (Dict.get id fc.windows)) [
  | inl e ↦ rw (e, window_of) (fresh-InBounds fc.default_max_window_size v.default_size)
  | inr (w, e) ↦ rw (e, window_of) (v.at_key id w e)
]

initialize-IsValid :
    (fc : FlowController) (id : Bytes) (sizes : List ℤ)
    → IsValid fc
    → IsValid (initialize_stream fc id sizes)
unfolding initialize_stream
initialize-IsValid fc id [] v = put_window-IsValid id _ v (fresh-InBounds _ v.default_size)
initialize-IsValid fc id (size ∷ _) v = put_window-IsValid id _ v (fresh-InBounds _ (ground arith))

-- A send is admitted only where it fits.
sent-InBounds :
    (w : WindowState) (size : ℤ)
    → pos 0 ≤ℤ size
    → ltb_ℤ w.max_window_size (w.send_window +ℤ size) ≡ false
    → InBounds w
    → InBounds (record w { send_window = w.send_window +ℤ size })
unfolding ◌+ℤ◌
sent-InBounds w size h e b = ground arith

taken-InBounds :
    (w : WindowState) (size : ℤ)
    → pos 0 ≤ℤ size
    → ltb_ℤ w.receive_window size ≡ false
    → InBounds w
    → InBounds (record w { receive_window = w.receive_window -ℤ size })
unfolding ◌-ℤ◌
taken-InBounds w size h e b = ground arith

acked-InBounds : (w : WindowState) (size : ℤ) → pos 0 ≤ℤ size → InBounds w → InBounds (acked w size)
unfolding acked ◌-ℤ◌
acked-InBounds w size h b = ground arith

released-InBounds :
    (w : WindowState) (size : ℤ) → pos 0 ≤ℤ size → InBounds w → InBounds (released w size)
unfolding released ◌+ℤ◌
released-InBounds w size h b = ground arith

module _ (fc : FlowController) (id : Bytes) (size : ℤ) (h : pos 0 ≤ℤ size) (v : IsValid fc) where
  try_send-IsValid : IsValid (try_send fc id size).0
  unfolding try_send
  try_send-IsValid =
      let w = window_of fc id in
      let b = window_of-InBounds fc id v in
      elim (Bool-cases (ltb_ℤ w.max_window_size (w.send_window +ℤ size))) [
        | inl full ↦ rw full (put_window-IsValid id w v b)
        | inr fits ↦ rw fits (put_window-IsValid id _ v (sent-InBounds w size h fits b))
      ]

  receive-IsValid : IsValid (receive fc id size).0
  unfolding receive
  receive-IsValid =
      let w = window_of fc id in
      let b = window_of-InBounds fc id v in
      elim (Bool-cases (ltb_ℤ w.receive_window size)) [
        | inl full ↦ rw full (put_window-IsValid id w v b)
        | inr fits ↦ rw fits (put_window-IsValid id _ v (taken-InBounds w size h fits b))
      ]

  on_ack-IsValid : IsValid (on_ack fc id size).0
  unfolding on_ack
  on_ack-IsValid = elim (Option-cases (Dict.get id fc.windows)) [
    | inl e ↦ rw (e, on_ack) v
    | inr (w, e) ↦
        rw (e, on_ack) (put_window-IsValid id _ v (acked-InBounds w size h (v.at_key id w e)))
  ]

  release-IsValid : IsValid (release_receive_window fc id size).0
  unfolding release_receive_window
  release-IsValid = elim (Option-cases (Dict.get id fc.windows)) [
    | inl e ↦ rw (e, release_receive_window) v
    | inr (w, e) ↦
        rw (e, release_receive_window)
          (put_window-IsValid id _ v (released-InBounds w size h (v.at_key id w e)))
  ]

remove_stream-IsValid :
    (fc : FlowController) (id : Bytes) → IsValid fc → IsValid (remove_stream fc id)
unfolding remove_stream
remove_stream-IsValid fc id v = record {
  default_size = v.default_size;
  at_key = λ j x p. ground (arith, get-remove id j fc.windows, v.at_key j x);
}

clear-IsValid : (fc : FlowController) → IsValid fc → IsValid (clear fc)
unfolding clear
clear-IsValid fc v = record {
  default_size = v.default_size;
  at_key = λ j x p. cc (get-empty {V = WindowState} j);
}

step-IsValid : (fc : FlowController) (c : Call) → IsSized c → IsValid fc → IsValid (step fc c)
unfolding step
step-IsValid fc (initializes id sizes) h v = initialize-IsValid fc id sizes v
step-IsValid fc (sends id size) h v = try_send-IsValid fc id size h v
step-IsValid fc (acks id size) h v = on_ack-IsValid fc id size h v
step-IsValid fc (receives id size) h v = receive-IsValid fc id size h v
step-IsValid fc (releases id size) h v = release-IsValid fc id size h v
step-IsValid fc (removes id) h v = remove_stream-IsValid fc id v
step-IsValid fc clears h v = clear-IsValid fc v

run-IsValid :
    (fc : FlowController) (cs : List Call) → All IsSized cs → IsValid fc → IsValid (run fc cs)
unfolding run
run-IsValid fc [] h v = v
run-IsValid fc (c ∷ cs) h v = run-IsValid (step fc c) cs h.1 (step-IsValid fc c h.0 v)

-- From a new controller with a default window that is not negative, after any calls with sizes
-- that are not negative, what a stream has sent and not had acknowledged lies between 0 and its
-- window size, and so does what it may still receive.
pub run_new-InBounds :
    (size : ℤ) (callback : Bool) (cs : List Call) (id : Bytes) (w : WindowState)
    → pos 0 ≤ℤ size
    → All IsSized cs
    → get_window_state (run (new_flow_controller size callback) cs) id ≡ some w
    → InBounds w
unfolding get_window_state new_flow_controller
run_new-InBounds size callback cs id w h sized e = (run-IsValid _ cs sized new_valid).at_key id w e
  where
    new_valid : IsValid (new_flow_controller size callback)
    new_valid = record { default_size = h; at_key = λ j x p. cc (get-empty {V = WindowState} j) }
