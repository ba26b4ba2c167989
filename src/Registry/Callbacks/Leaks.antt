-- ===== src/Registry/Callbacks/Leaks.antt =====
-- What the table of callbacks keeps in memory.
use inlets.Common.{
  ◌≡◌, ◌≢◌, refl, inl, inr, List, [], ◌∷◌, Option, none, some, Bytes, bytes_key, arith,
  Option-cases,
}
use inlets.Common.Dict
use inlets.Common.Dict.{Dict, get-put, get-remove}
use inlets.Registry.Callbacks.{
  CallbackContainer, new_callback_container, callbacks_of, get, take, deleted, set, remove,
}
use inlets.Registry.Callbacks.Refines.{Call, to_get, to_take, to_set, to_remove, step, get-tunnel}

module _ {F : Type 0} where
  -- the table that a run of calls leaves
  unfoldable pub after : CallbackContainer F → List (Call F) → CallbackContainer F
  after c [] = c
  after c (call ∷ calls) = after (step c call).0 calls

  -- the table has no entry for a tunnel without callbacks
  abbrev pub NoEmpty : CallbackContainer F → Type 0
  NoEmpty c = (t : Bytes) → Dict.get t c ≢ some []

  put_full : (k : Bytes) (f : F) (m : Dict Bytes F) → Dict.put k f m ≢ []
  unfolding Dict.put
  put_full k f [] e = cc
  put_full k f ((j, w) ∷ m) e = ground arith

  set-NoEmpty : (c : CallbackContainer F) (t k : Bytes) (f : F) → NoEmpty c → NoEmpty (set c t k f)
  unfolding set
  set-NoEmpty c t k f h a e =
      let m = callbacks_of (Dict.get t c) in
      ground (arith, h a, put_full k f m, get-put t a (Dict.put k f m) c)

  deleted-NoEmpty :
      (c : CallbackContainer F) (t : Bytes) (m : Dict Bytes F) → NoEmpty c → NoEmpty (deleted c t m)
  unfolding deleted
  deleted-NoEmpty c t [] h a e = ground (arith, h a, get-remove t a c)
  deleted-NoEmpty c t (x ∷ m) h a e = ground (arith, h a, get-put t a (x ∷ m) c)

  take-NoEmpty : (c : CallbackContainer F) (t k : Bytes) → NoEmpty c → NoEmpty (take c t k).0
  unfolding take
  take-NoEmpty c t k h a = elim (Option-cases (Dict.get t c)) [
    | inl e ↦ λ b. ground (arith, h a)
    | inr (m, e) ↦ λ b. ground (arith, h a, deleted-NoEmpty c t (Dict.remove k m) h a)
  ]

  step-NoEmpty : (c : CallbackContainer F) (call : Call F) → NoEmpty c → NoEmpty (step c call).0
  unfolding step remove
  step-NoEmpty c (to_get t k) h = h
  step-NoEmpty c (to_take t k) h = take-NoEmpty c t k h
  step-NoEmpty c (to_set t k f) h = set-NoEmpty c t k f h
  step-NoEmpty c (to_remove t) h = λ a e. ground (arith, h a, get-remove t a c)

  after-NoEmpty :
      (calls : List (Call F)) (c : CallbackContainer F) → NoEmpty c → NoEmpty (after c calls)
  unfolding after
  after-NoEmpty [] c h = h
  after-NoEmpty (call ∷ calls) c h = after-NoEmpty calls _ (step-NoEmpty c call h)

  get-first : (k : Bytes) (v : F) (m : Dict Bytes F) → Dict.get k ((k, v) ∷ m) ≡ some v
  unfolding Dict.get
  get-first k v m = ground arith

  get_entry :
      (c : CallbackContainer F) (t : Bytes) (o : Option (Dict Bytes F))
      → NoEmpty c
      → ((k : Bytes) → get c t k ≡ none)
      → Dict.get t c ≡ o
      → o ≡ none
  get_entry c t none full h e = refl
  get_entry c t (some []) full h e = absurd (full t e)
  get_entry c t (some ((k, v) ∷ m)) full h e =
      let found = get-tunnel c t k e in let first = get-first k v m in let missing = h k in cc

  new_callback_container-NoEmpty : NoEmpty (new_callback_container {F = F})
  unfolding new_callback_container Dict.get
  new_callback_container-NoEmpty t e = cc

  -- After any calls on the table that starts out empty, a tunnel with no waiting callback has no
  -- entry in the table: taking the last callback removes the entry, so finished tunnels leave
  -- nothing behind.
  pub after-new_callback_container :
      (calls : List (Call F)) (t : Bytes)
      → ((k : Bytes) → get (after new_callback_container calls) t k ≡ none)
      → Dict.get t (after new_callback_container calls) ≡ none
  after-new_callback_container calls t h =
      let full = after-NoEmpty calls _ new_callback_container-NoEmpty in get_entry _ t _ full h refl
