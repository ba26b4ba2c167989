-- ===== src/Stream/Ends.antt =====
-- The loop of `tryReassemble` takes an entry off the map in each round, so it ends.
use inlets.Common.{
  ℕ, zero, suc, ◌<◌, ◌≡◌, refl, ◌≢◌, Bool, Bytes, some, ℕ_key, length, arith, ok, err, panic,
  Outcome, ◌>>=◌, Option-cases, inl, inr,
}
use inlets.Common.Dict
use inlets.Common.Dict.{Dict, length-remove_lt}
use inlets.Stream.{
  Stream, StreamChunk, active, Fault, out_of_fuel, try_reassemble, fuel_for, add_chunk, store_chunk,
  resume, merge_chunk,
}
use inlets.Stream.Loop.{round_gap}

module _ {C : Type 0} where
  open_ends :
      (fuel : ℕ) (s : Stream C) (m : Dict ℕ StreamChunk)
      → s.chunks ≡ some m
      → length m < fuel
      → try_reassemble fuel s ≢ err out_of_fuel
  unfolding try_reassemble
  open_ends zero s m o h = absurd (omega arith)
  open_ends (suc fuel) s m o h = elim (Option-cases (Dict.get s.expected_sequence m)) [
    | inl gap ↦ λ q. absurd (cc (round_gap fuel s o gap))
    | inr (c, e) ↦
        let s' = merge_chunk s m c in
        let next =
          open_ends fuel s' (Dict.remove s.expected_sequence m) (unfold merge_chunk in refl)
            (omega (arith, length-remove_lt s.expected_sequence c m e)) in
        ground (arith, next)
  ]

  fuel_for_ends : (s : Stream C) → try_reassemble (fuel_for s) s ≢ err out_of_fuel
  unfolding fuel_for
  fuel_for_ends s = elim (Option-cases s.chunks) [
    | inl closed ↦ unfold try_reassemble in ground arith
    | inr (m, o) ↦ ground (arith, open_ends (suc (length m)) s m o)
  ]

  store_chunk_ends :
      (s : Stream C) (n : ℕ) (payload : Bytes) (is_last : Bool) (now : ℕ)
      → store_chunk s n payload is_last now ≢ err out_of_fuel
  unfolding store_chunk
  store_chunk_ends s n payload is_last now = ground arith

  then_loop_ends :
      (r : Outcome Fault (Stream C))
      → r ≢ err out_of_fuel
      → (r >>= λ s. try_reassemble (fuel_for s) s) ≢ err out_of_fuel
  then_loop_ends (ok s) h = fuel_for_ends s
  then_loop_ends (err e) h = λ p. h (cc)
  then_loop_ends panic h = λ p. cc

  -- `AddChunk` and `Resume` end on every stream, whatever it holds.
  pub add_chunk-resume_ends :
      (s : Stream C) (n : ℕ) (payload : Bytes) (is_last : Bool) (now : ℕ)
      → (add_chunk s n payload is_last now ≢ err out_of_fuel) × (resume s ≢ err out_of_fuel)
  unfolding add_chunk resume
  add_chunk-resume_ends s n payload is_last now = (
    ground (arith, then_loop_ends _ (store_chunk_ends s n payload is_last now)),
    ground (arith, fuel_for_ends (record s { state = active })),
  )
