-- ===== src/Manager/Expiry.antt =====
-- What `cleanup` removes: the streams that are closed, stalled or too old, and no others.
use inlets.Common.{
  ℕ, ◌≡◌, refl, inl, inr, List, [], ◌∷◌, Bool, true, false, ◌||◌, Option, none, some, Bytes,
  bytes_key, Bytes-discrete, arith, if◌then◌else◌, Option-cases, Bool-cases, map, ite, suc, ◌*◌,
  ◌^◌, ◌↔◌, ◌⊎◌, if_elim, zero,
}
use inlets.Common.Dict
use inlets.Common.Dict.{Dict, get-remove}
use inlets.Common.Int.{ℤ, pos, negsuc, ◌+ℤ◌, ◌-ℤ◌, ◌<ℤ◌, ltb_ℤ}
use inlets.Stream.{Stream, StreamState, completed, errored, is_closed}
use inlets.Manager.{
  StreamManager, get_stream, remove_stream, is_stale, stall_limit, minutes, clean_one, clean_all,
  cleanup, stream_ids,
}

module _ {C : Type 0} where
  -- the stream goes at this time
  abbrev expires : StreamManager C → ℕ → Stream C → Bool
  expires sm now s = is_closed s.state || is_stale sm now s

  -- what is left of a stream that is or is not there
  abbrev survivor : StreamManager C → ℕ → Option (Stream C) → Option (Stream C)
  survivor sm now none = none
  survivor sm now (some s) = if expires sm now s then none else some s

  -- what the tests of `cleanup` read of a manager
  record SameLimits (a b : StreamManager C) : Type 0 where
    age : b.max_stream_age ≡ a.max_stream_age
    stall : b.stall_timeout ≡ a.stall_timeout

  is_stale-SameLimits :
      {a b : StreamManager C}
      → SameLimits a b
      → (now : ℕ) (s : Stream C) → is_stale b now s ≡ is_stale a now s
  unfolding is_stale stall_limit
  is_stale-SameLimits h now s = rw (h.age, h.stall)

  get-remove_stream :
      (sm : StreamManager C) (id j : Bytes)
      → get_stream (remove_stream sm id) j ≡ ite (Bytes-discrete id j) none (get_stream sm j)
  unfolding get_stream remove_stream
  get-remove_stream sm id j = elim (Option-cases sm.streams) [
    | inl e ↦ ground arith
    | inr (m, e) ↦ ground (arith, get-remove id j m)
  ]

  remove_stream-SameLimits :
      (sm : StreamManager C) (id : Bytes) → SameLimits sm (remove_stream sm id)
  unfolding remove_stream
  remove_stream-SameLimits sm id = record { age = ground arith; stall = ground arith }

  clean_one-SameLimits :
      (sm : StreamManager C) (now : ℕ) (id : Bytes) → SameLimits sm (clean_one sm now id).0
  unfolding clean_one
  clean_one-SameLimits sm now id =
      let r = remove_stream-SameLimits sm id in
      record { age = ground (arith, r.age); stall = ground (arith, r.stall) }

  -- one round touches its own stream only
  get-clean_one :
      (sm : StreamManager C) (now : ℕ) (id j : Bytes)
      → get_stream (clean_one sm now id).0 j
        ≡ ite (Bytes-discrete id j) (survivor sm now (get_stream sm j)) (get_stream sm j)
  unfolding clean_one
  get-clean_one sm now id j = ground (arith, get-remove_stream sm id j)

  survivor-SameLimits :
      {a b : StreamManager C}
      → SameLimits a b
      → (now : ℕ) (o : Option (Stream C)) → survivor b now o ≡ survivor a now o
  survivor-SameLimits h now none = refl
  survivor-SameLimits h now (some s) = rw (is_stale-SameLimits h now s)

  survivor_idem :
      (sm : StreamManager C) (now : ℕ) (o : Option (Stream C))
      → survivor sm now (survivor sm now o) ≡ survivor sm now o
  survivor_idem sm now none = refl
  survivor_idem sm now (some s) = ground arith

abbrev visited : Bytes → List Bytes → Bool
visited j [] = false
visited j (id ∷ ids) = ite (Bytes-discrete id j) true (visited j ids)

module _ {C : Type 0} where
  get-clean_all :
      (sm : StreamManager C) (now : ℕ) (ids : List Bytes) (j : Bytes)
      → get_stream (clean_all sm now ids).0 j
        ≡ (if visited j ids then survivor sm now (get_stream sm j) else get_stream sm j)
  unfolding clean_all
  get-clean_all sm now [] j = refl
  get-clean_all sm now (id ∷ ids) j =
      let sm' = (clean_one sm now id).0 in
      rw
        (
          get-clean_all sm' now ids j,
          survivor-SameLimits (clean_one-SameLimits sm now id) now (get_stream sm' j),
          get-clean_one sm now id j,
        )
        (ground (arith, survivor_idem sm now (get_stream sm j)))

  get_of_not_visited :
      (j : Bytes) (m : Dict Bytes (Stream C))
      → visited j (map (λ e. e.0) m) ≡ false
      → Dict.get j m ≡ none
  unfolding Dict.get
  get_of_not_visited j [] h = refl
  get_of_not_visited j ((i, s) ∷ m) h = ground (arith, get_of_not_visited j m)

  not_there :
      (sm : StreamManager C) (j : Bytes)
      → visited j (stream_ids sm) ≡ false
      → get_stream sm j ≡ none
  unfolding stream_ids get_stream
  not_there sm j h = elim (Option-cases sm.streams) [
    | inl e ↦ ground arith
    | inr (m, e) ↦ ground (arith, get_of_not_visited j m)
  ]

  get-cleanup :
      (sm : StreamManager C) (now : ℕ) (j : Bytes)
      → get_stream (cleanup sm now).0 j ≡ survivor sm now (get_stream sm j)
  unfolding cleanup
  get-cleanup sm now j =
      rw (get-clean_all sm now (stream_ids sm) j) (elim (Bool-cases (visited j (stream_ids sm))) [
        | inl known ↦ rw known
        | inr new ↦ rw (new, not_there sm j new)
      ])

abbrev pub IsOver : StreamState → Type 0
IsOver completed = Unit
IsOver errored = Unit
IsOver _ = ⊥

-- two minutes where the manager names no time that is positive
abbrev pub patience : ℤ → ℤ
patience (pos (suc d)) = pos (suc d)
patience _ = pos (120 * 10 ^ 9)

-- more than `d` has passed since `then_`
abbrev pub Passed : ℤ → ℕ → ℕ → Type 0
Passed d then_ now = d +ℤ pos then_ <ℤ pos now

abbrev pub Expired : {C : Type 0} → StreamManager C → ℕ → Stream C → Type 0
Expired sm now s =
    IsOver s.state
    ⊎ Passed (patience sm.stall_timeout) s.last_activity now
    ⊎ Passed sm.max_stream_age s.created_at now

is_closed_iff : (state : StreamState) → (is_closed state ≡ true) ↔ IsOver state
unfolding is_closed
is_closed_iff completed = (λ e. tt, λ e. refl)
is_closed_iff errored = (λ e. tt, λ e. refl)
is_closed_iff _ = (λ e. cc, λ e. absurd e)

patience_lem : (d : ℤ) → (if ltb_ℤ (pos 0) d then d else minutes 2) ≡ patience d
patience_lem (pos zero) = refl
patience_lem (pos (suc d)) = ground arith
patience_lem (negsuc d) = ground arith

stall_limit_lem : {C : Type 0} (sm : StreamManager C) → stall_limit sm ≡ patience sm.stall_timeout
unfolding stall_limit
stall_limit_lem sm = patience_lem sm.stall_timeout

longer_iff : (d : ℤ) (l n : ℕ) → (ltb_ℤ d (pos n -ℤ pos l) ≡ true) ↔ Passed d l n
unfolding ◌-ℤ◌ ◌+ℤ◌
longer_iff (pos d) l n = ground arith
longer_iff (negsuc d) l n = ground arith

module _ {C : Type 0} where
  expires_iff :
      (sm : StreamManager C) (now : ℕ) (s : Stream C) → (expires sm now s ≡ true) ↔ Expired sm now s
  unfolding is_stale
  expires_iff sm now s = rw (stall_limit_lem sm) (
      ground (
        arith,
        is_closed_iff s.state,
        longer_iff (patience sm.stall_timeout) s.last_activity now,
        longer_iff sm.max_stream_age s.created_at now,
      ))

  survivor_iff :
      (sm : StreamManager C) (now : ℕ) (o : Option (Stream C)) (s : Stream C)
      → (survivor sm now o ≡ some s) ↔ ((o ≡ some s) × ¬ Expired sm now s)
  survivor_iff sm now none s = (λ p. absurd (cc), λ q. absurd (let e = q.0 in cc))
  survivor_iff sm now (some x) s = (
    λ p.
        if_elim (expires sm now x) p (λ e q. absurd (cc))
          (λ e q.
            let same : x ≡ s = cc in
            (
              q,
              λ ex. let gone : expires sm now s ≡ true = (expires_iff sm now s).1 ex in absurd (cc),
            )),
    λ q.
        let same : x ≡ s = (let e = q.0 in cc) in
        elim (Bool-cases (expires sm now x)) [
          | inl e ↦ absurd (q.1 ((expires_iff sm now s).0 (rw (← same) e)))
          | inr e ↦ rw e q.0
        ],
  )

  -- After `cleanup` a stream is there, and is the stream `s`, exactly if it was there as `s` and
  -- `s` is neither completed nor failed, nor without activity for longer than the stall time (two
  -- minutes where that is not positive), nor older than the age limit.
  pub cleanup_survivors :
      (sm : StreamManager C) (now : ℕ) (j : Bytes) (s : Stream C)
      → (get_stream (cleanup sm now).0 j ≡ some s)
        ↔ ((get_stream sm j ≡ some s) × ¬ Expired sm now s)
  cleanup_survivors sm now j s = rw (get-cleanup sm now j) (survivor_iff sm now (get_stream sm j) s)
