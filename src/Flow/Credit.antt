-- ===== src/Flow/Credit.antt =====
-- What a sender is refused stays refused until the stream is acknowledged or starts anew.
use inlets.Common.{
  ◌≡◌, refl, ◌≢◌, List, [], ◌∷◌, some, Bytes, bytes_key, Bytes-discrete, arith, Option-cases, inl,
  inr, true, false, Bool-cases, All,
}
use inlets.Common.Int.{ℤ, pos, ◌≤ℤ◌, ◌+ℤ◌, ltb_ℤ}
use inlets.Common.Dict
use inlets.Common.Dict.{get-put, get-remove}
use inlets.Flow.{
  WindowState, FlowController, Call, initializes, sends, acks, receives, releases, removes, clears,
  initialize_stream, window_of, try_send, on_ack, receive, released, release_receive_window,
  remove_stream, step, run, put_window,
}

-- The calls that give the stream `id` no credit back.
abbrev pub GivesNoCredit : Bytes → Call → Type 0
GivesNoCredit id (initializes j sizes) = j ≢ id
GivesNoCredit id (sends j size) = pos 0 ≤ℤ size
GivesNoCredit id (acks j size) = j ≢ id
GivesNoCredit id (receives j size) = Unit {0}
GivesNoCredit id (releases j size) = Unit {0}
GivesNoCredit id (removes j) = j ≢ id
GivesNoCredit id clears = ⊥

-- `w'` has the size of `w` and no more room.
record Tighter (w w' : WindowState) : Type 0 where
  size : w'.max_window_size ≡ w.max_window_size
  sent : w.send_window ≤ℤ w'.send_window

-- A send that does not fit a window fits no tighter one.
full-Tighter :
    {w w' : WindowState} (size : ℤ)
    → Tighter w w'
    → ltb_ℤ w.max_window_size (w.send_window +ℤ size) ≡ true
    → ltb_ℤ w'.max_window_size (w'.send_window +ℤ size) ≡ true
unfolding ◌+ℤ◌
full-Tighter size t h = ground (arith, t.size, t.sent)

record Holds (id : Bytes) (w : WindowState) (fc : FlowController) : Type 0 where
  window : WindowState
  found : Dict.get id fc.windows ≡ some window
  tighter : Tighter w window

window_of-Holds :
    {id : Bytes} {w : WindowState} {fc : FlowController} (h : Holds id w fc)
    → window_of fc id ≡ h.window
unfolding window_of
window_of-Holds {id} {w} {fc} h = rw (h.found, window_of)

module _ {id : Bytes} {w : WindowState} (fc : FlowController) (j : Bytes) where
  put_window-Holds :
      (w' : WindowState) → (j ≡ id → Tighter w w') → Holds id w fc → Holds id w (put_window fc j w')
  put_window-Holds w' t h = elim (Bytes-discrete j id) [
    | yes same ↦ record {
      window = w';
      found = ground (arith, get-put j id w' fc.windows);
      tighter = t same;
    }
    | no other ↦ record {
      window = h.window;
      found = ground (arith, get-put j id w' fc.windows, h.found);
      tighter = h.tighter;
    }
  ]

  put_other-Holds : (w' : WindowState) → j ≢ id → Holds id w fc → Holds id w (put_window fc j w')
  put_other-Holds w' other = put_window-Holds w' (λ same. absurd (other same))

  Tighter-at : (h : Holds id w fc) → j ≡ id → Tighter w (window_of fc j)
  Tighter-at h e = rw (e, window_of-Holds h) h.tighter

  Tighter-found :
      (v : WindowState) → Dict.get j fc.windows ≡ some v → Holds id w fc → j ≡ id → Tighter w v
  Tighter-found v e h same = let q : h.window ≡ v = cc (h.found, e, same) in rw (← q) h.tighter

  try_send-Holds : (size : ℤ) → pos 0 ≤ℤ size → Holds id w fc → Holds id w (try_send fc j size).0
  unfolding try_send
  try_send-Holds size s h =
      let v = window_of fc j in
      elim (Bool-cases (ltb_ℤ v.max_window_size (v.send_window +ℤ size))) [
        | inl full ↦ rw full (put_window-Holds v (Tighter-at h) h)
        | inr fits ↦ rw fits (put_window-Holds _ (λ e. grows v size s (Tighter-at h e)) h)
      ]
    where
      grows :
          (v : WindowState) (size : ℤ)
          → pos 0 ≤ℤ size
          → Tighter w v
          → Tighter w (record v { send_window = v.send_window +ℤ size })
      grows v size s t = record { size = t.size; sent = unfold ◌+ℤ◌ in ground (arith, t.sent) }

  receive-Holds : (size : ℤ) → Holds id w fc → Holds id w (receive fc j size).0
  unfolding receive
  receive-Holds size h =
      let v = window_of fc j in
      elim (Bool-cases (ltb_ℤ v.receive_window size)) [
        | inl full ↦ rw full (put_window-Holds v (Tighter-at h) h)
        | inr fits ↦ rw fits (
            put_window-Holds _
              (λ e. record { size = (Tighter-at h e).size; sent = (Tighter-at h e).sent }) h)
      ]

  on_ack-Holds : (size : ℤ) → j ≢ id → Holds id w fc → Holds id w (on_ack fc j size).0
  unfolding on_ack
  on_ack-Holds size other h = elim (Option-cases (Dict.get j fc.windows)) [
    | inl e ↦ rw (e, on_ack) h
    | inr (v, e) ↦ rw (e, on_ack) (put_other-Holds _ other h)
  ]

  release-Holds : (size : ℤ) → Holds id w fc → Holds id w (release_receive_window fc j size).0
  unfolding release_receive_window released
  release-Holds size h = elim (Option-cases (Dict.get j fc.windows)) [
    | inl e ↦ rw (e, release_receive_window) h
    | inr (v, e) ↦
        rw (e, release_receive_window)
          (put_window-Holds _
            (λ same. let t = Tighter-found v e h same in record { size = t.size; sent = t.sent }) h)
  ]

  remove-Holds : j ≢ id → Holds id w fc → Holds id w (remove_stream fc j)
  unfolding remove_stream
  remove-Holds other h = record {
    window = h.window;
    found = ground (arith, get-remove j id fc.windows, h.found);
    tighter = h.tighter;
  }

step-Holds :
    {id : Bytes} {w : WindowState} (fc : FlowController) (c : Call)
    → GivesNoCredit id c
    → Holds id w fc
    → Holds id w (step fc c)
unfolding step initialize_stream
step-Holds fc (initializes j []) n h = put_other-Holds fc j _ n h
step-Holds fc (initializes j (size ∷ _)) n h = put_other-Holds fc j _ n h
step-Holds fc (sends j size) n h = try_send-Holds fc j size n h
step-Holds fc (acks j size) n h = on_ack-Holds fc j size n h
step-Holds fc (receives j size) n h = receive-Holds fc j size h
step-Holds fc (releases j size) n h = release-Holds fc j size h
step-Holds fc (removes j) n h = remove-Holds fc j n h
step-Holds fc clears n h = absurd n

run-Holds :
    {id : Bytes} {w : WindowState} (fc : FlowController) (cs : List Call)
    → All (GivesNoCredit id) cs
    → Holds id w fc
    → Holds id w (run fc cs)
unfolding run
run-Holds fc [] n h = h
run-Holds fc (c ∷ cs) n h = run-Holds (step fc c) cs n.1 (step-Holds fc c n.0 h)

refused_window :
    (fc : FlowController) (id : Bytes) (size : ℤ)
    → (try_send fc id size).1 ≡ false
    → (ltb_ℤ (window_of fc id).max_window_size ((window_of fc id).send_window +ℤ size) ≡ true)
      × Holds id (window_of fc id) (try_send fc id size).0
unfolding try_send
refused_window fc id size h =
    let w = window_of fc id in
    elim (Bool-cases (ltb_ℤ w.max_window_size (w.send_window +ℤ size))) [
      | inl full ↦ (
        full,
        rw full (record {
          window = w;
          found = ground (arith, get-put id id w fc.windows);
          tighter = record { size = refl; sent = omega arith };
        }),
      )
      | inr fits ↦ absurd (ground arith)
    ]

-- A chunk that `TrySend` refuses is refused again after any calls that neither acknowledge the
-- stream nor start it anew, remove it or clear the controller.
pub try_send_stays_refused :
    (fc : FlowController) (id : Bytes) (size : ℤ) (cs : List Call)
    → (try_send fc id size).1 ≡ false
    → All (GivesNoCredit id) cs
    → (try_send (run (try_send fc id size).0 cs) id size).1 ≡ false
try_send_stays_refused fc id size cs refused n =
    let (full, h₀) = refused_window fc id size refused in
    let h = run-Holds (try_send fc id size).0 cs n h₀ in
    unfold try_send in rw (window_of-Holds h, full-Tighter size h.tighter full)
