-- ===== src/Flow/Restore.antt =====
-- The receive window of a stream whose first message is taken and given back.
use inlets.Common.{
  ℕ, suc, ◌≡◌, refl, ◌⊎◌, inl, inr, List, [], ◌∷◌, Bool, true, false, none, some, Bytes, bytes_key,
  Bool-cases, ltb, ltb→le, arith, ◌≤◌,
}
use inlets.Common.Int.{pos, ltb_ℤ, half, ◌+ℤ◌, ◌-ℤ◌}
use inlets.Common.Dict
use inlets.Common.Dict.{get-put}
use inlets.Flow.{
  FlowController, WindowState, Signal, receive, release_receive_window, window_of, signal, released,
  fresh_window, put_window,
}

released_full :
    (size n : ℕ) → released (fresh_window (pos (suc size))) (pos n) ≡ fresh_window (pos (suc size))
unfolding released ◌+ℤ◌
released_full size n = ground arith

released_taken :
    (size n : ℕ)
    → n ≤ suc size
    → released
        (record (fresh_window (pos (suc size))) { receive_window = pos (suc size) -ℤ pos n })
        (pos n)
      ≡ fresh_window (pos (suc size))
unfolding released ◌+ℤ◌ ◌-ℤ◌
released_taken size n h = ground arith

-- the window gives back `n` bytes and is full
pub record Taken (fc : FlowController) (id : Bytes) (size n : ℕ)
    (r : FlowController × Bool × List Signal) : Type 0 where
  pub window : WindowState
  pub found : Dict.get id r.0.windows ≡ some window
  pub full_again : released window (pos n) ≡ fresh_window (pos (suc size))
  pub callback : r.0.on_backpressure ≡ true
  pub signals : (r.2 ≡ []) ⊎ (r.2 ≡ record { stream_id = id; pause = true } ∷ [])

module _ (fc : FlowController) (id : Bytes) (size n : ℕ) (cb : fc.on_backpressure ≡ true) where
  abbrev full : WindowState
  full = fresh_window (pos (suc size))

  abbrev taken : WindowState
  taken = record full { receive_window = pos (suc size) -ℤ pos n }

  window_of-fresh :
      Dict.get id fc.windows ≡ none
      → fc.default_max_window_size ≡ pos (suc size)
      → window_of fc id ≡ full
  unfolding window_of
  window_of-fresh fresh default = ground arith

  receive_refused :
      window_of fc id ≡ full
      → ltb (suc size) n ≡ true
      → receive fc id (pos n)
        ≡ (put_window fc id full, false, record { stream_id = id; pause = true } ∷ [])
  unfolding receive signal
  receive_refused e refused = rw (e, cb) (ground arith)

  receive-taken :
      window_of fc id ≡ full
      → ltb (suc size) n ≡ false
      → receive fc id (pos n) ≡ (put_window fc id taken, true, [])
  unfolding receive
  receive-taken e fits = rw e (ground arith)

  pub receive_fresh :
      Dict.get id fc.windows ≡ none
      → fc.default_max_window_size ≡ pos (suc size)
      → Taken fc id size n (receive fc id (pos n))
  receive_fresh fresh default =
      let e = window_of-fresh fresh default in
      elim (Bool-cases (ltb (suc size) n)) [
        | inl refused ↦ rw (receive_refused e refused) (record {
          window = full;
          found = ground (arith, get-put id id full fc.windows);
          full_again = released_full size n;
          callback = cb;
          signals = inr refl;
        })
        | inr fits ↦ rw (receive-taken e fits) (record {
          window = taken;
          found = ground (arith, get-put id id taken fc.windows);
          full_again = released_taken size n (ltb→le _ _ fits);
          callback = cb;
          signals = inl refl;
        })
      ]

  pub release_full :
      (w : WindowState)
      → Dict.get id fc.windows ≡ some w
      → released w (pos n) ≡ fresh_window (pos (suc size))
      → release_receive_window fc id (pos n)
        ≡ (put_window fc id full, record { stream_id = id; pause = false } ∷ [])
  unfolding release_receive_window signal half
  release_full w g f =
      let more : ltb_ℤ (half (pos (suc size))) (pos (suc size)) ≡ true = ground arith in
      ground arith
