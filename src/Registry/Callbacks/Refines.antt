-- ===== src/Registry/Callbacks/Refines.antt =====
-- The table of callbacks behaves as a function from tunnels and requests to callbacks.
use inlets.Common.{
  ◌≡◌, refl, inl, inr, List, [], ◌∷◌, Option, none, some, Bytes, bytes_key, Bytes-discrete, arith,
  ite, ◌∙◌, Option-cases,
}
use inlets.Common.Dict
use inlets.Common.Dict.{Dict, get-put, get-remove, get-empty}
use inlets.Registry.Callbacks.{
  CallbackContainer, new_callback_container, callbacks_of, get, take, deleted, set, remove,
}

-- The calls that the server makes.
pub data Call (F : Type 0) : Type 0 where
  to_get : Bytes → Bytes → Call F
  to_take : Bytes → Bytes → Call F
  to_set : Bytes → Bytes → F → Call F
  to_remove : Bytes → Call F

-- What the table promises to be: the waiting callback, if any, of each tunnel and request.
abbrev pub Waiting : Type 0 → Type 0
Waiting F = Bytes → Bytes → Option F

module _ {F : Type 0} where
  unfoldable pub step : CallbackContainer F → Call F → CallbackContainer F × Option F
  step c (to_get t k) = (c, get c t k)
  step c (to_take t k) = take c t k
  step c (to_set t k f) = (set c t k f, none)
  step c (to_remove t) = (remove c t, none)

  -- the answers of the calls in order
  unfoldable pub answers : CallbackContainer F → List (Call F) → List (Option F)
  answers c [] = []
  answers c (call ∷ calls) = (step c call).1 ∷ answers (step c call).0 calls

  abbrev pub change : Waiting F → Bytes → Bytes → Option F → Waiting F
  change w t k o a b = ite (Bytes-discrete t a) (ite (Bytes-discrete k b) o (w a b)) (w a b)

  unfoldable pub promised : Waiting F → Call F → Waiting F × Option F
  promised w (to_get t k) = (w, w t k)
  promised w (to_take t k) = (change w t k none, w t k)
  promised w (to_set t k f) = (change w t k (some f), none)
  promised w (to_remove t) = (λ a b. ite (Bytes-discrete t a) none (w a b), none)

  unfoldable pub promised_answers : Waiting F → List (Call F) → List (Option F)
  promised_answers w [] = []
  promised_answers w (call ∷ calls) =
      (promised w call).1 ∷ promised_answers (promised w call).0 calls

  get-no_tunnel : (c : CallbackContainer F) (t b : Bytes) → Dict.get t c ≡ none → get c t b ≡ none
  unfolding get
  get-no_tunnel c t b e = ground arith

  pub get-tunnel :
      (c : CallbackContainer F) (t b : Bytes) {m : Dict Bytes F}
      → Dict.get t c ≡ some m
      → get c t b ≡ Dict.get b m
  unfolding get
  get-tunnel c t b e = ground arith

  get-callbacks_of :
      (c : CallbackContainer F) (t b : Bytes) → Dict.get b (callbacks_of (Dict.get t c)) ≡ get c t b
  unfolding get callbacks_of
  get-callbacks_of c t b = elim (Option-cases (Dict.get t c)) [
    | inl e ↦ ground (arith, get-empty {K = Bytes} {V = F} b)
    | inr (m, e) ↦ ground arith
  ]

  get-set :
      (c : CallbackContainer F) (t k a b : Bytes) (f : F)
      → get (set c t k f) a b ≡ change (get c) t k (some f) a b
  unfolding get set
  get-set c t k a b f =
      let m = callbacks_of (Dict.get t c) in
      ground (arith, get-put t a (Dict.put k f m) c, get-put k b f m, get-callbacks_of c t b)

  get-deleted :
      (c : CallbackContainer F) (t a b : Bytes) (m : Dict Bytes F)
      → get (deleted c t m) a b ≡ ite (Bytes-discrete t a) (Dict.get b m) (get c a b)
  unfolding get deleted
  get-deleted c t a b [] = ground (arith, get-remove t a c, get-empty {K = Bytes} {V = F} b)
  get-deleted c t a b (e ∷ m) = ground (arith, get-put t a (e ∷ m) c)

  get-remove_tunnel :
      (c : CallbackContainer F) (t a b : Bytes)
      → get (remove c t) a b ≡ ite (Bytes-discrete t a) none (get c a b)
  unfolding get remove
  get-remove_tunnel c t a b = ground (arith, get-remove t a c)

  take_nothing : (c : CallbackContainer F) (t k : Bytes) → get c t k ≡ none → take c t k ≡ (c, none)
  unfolding take get
  take_nothing c t k h = ground arith

  take_found :
      (c : CallbackContainer F) (t k : Bytes) {m : Dict Bytes F} {v : F}
      → Dict.get t c ≡ some m
      → Dict.get k m ≡ some v
      → take c t k ≡ (deleted c t (Dict.remove k m), some v)
  unfolding take
  take_found c t k e h = ground arith

  get-deleted_key :
      (c : CallbackContainer F) (t k a b : Bytes) {m : Dict Bytes F}
      → Dict.get t c ≡ some m
      → get (deleted c t (Dict.remove k m)) a b ≡ change (get c) t k none a b
  get-deleted_key c t k a b {m} e =
      ground (arith, get-deleted c t a b (Dict.remove k m), get-remove k b m, get-tunnel c t b e)

  get-take :
      (c : CallbackContainer F) (t k a b : Bytes)
      → get (take c t k).0 a b ≡ change (get c) t k none a b
  get-take c t k a b = elim (Option-cases (Dict.get t c)) [
    | inl e ↦ let h = get-no_tunnel c t k e in rw (take_nothing c t k h) (ground arith)
    | inr (m, e) ↦ elim (Option-cases (Dict.get k m)) [
      | inl f ↦ let h = get-tunnel c t k e ∙ f in rw (take_nothing c t k h) (ground arith)
      | inr (v, f) ↦ rw (take_found c t k e f) (get-deleted_key c t k a b e)
    ]
  ]

  answer_of_take : (c : CallbackContainer F) (t k : Bytes) → (take c t k).1 ≡ get c t k
  unfolding take get
  answer_of_take c t k = ground arith

  -- the table reads as `w`
  abbrev pub ReadsAs : CallbackContainer F → Waiting F → Type 0
  ReadsAs c w = (a b : Bytes) → get c a b ≡ w a b

  step-ReadsAs :
      (c : CallbackContainer F) (w : Waiting F)
      → ReadsAs c w
      → (call : Call F)
      → ReadsAs (step c call).0 (promised w call).0 × ((step c call).1 ≡ (promised w call).1)
  unfolding step promised
  step-ReadsAs c w h (to_get t k) = (h, h t k)
  step-ReadsAs c w h (to_take t k) =
      (λ a b. rw (get-take c t k a b, h a b) refl, answer_of_take c t k ∙ h t k)
  step-ReadsAs c w h (to_set t k f) = (λ a b. rw (get-set c t k a b f, h a b) refl, refl)
  step-ReadsAs c w h (to_remove t) = (λ a b. rw (get-remove_tunnel c t a b, h a b) refl, refl)

  answers-ReadsAs :
      (calls : List (Call F)) (c : CallbackContainer F) (w : Waiting F)
      → ReadsAs c w
      → answers c calls ≡ promised_answers w calls
  unfolding answers promised_answers
  answers-ReadsAs [] c w h = refl
  answers-ReadsAs (call ∷ calls) c w h =
      let (next, answer) = step-ReadsAs c w h call in
      rw (answer, answers-ReadsAs calls _ _ next) refl

  get-nothing : (a b : Bytes) → get {F = F} [] a b ≡ none
  unfolding get Dict.get
  get-nothing a b = refl

  -- Whatever calls are made in whatever order, the table that starts out empty answers each of them
  -- like the function from tunnels and requests to waiting callbacks: Get finds the callback that
  -- was set last and not taken or removed since, and Take finds it and takes it away.
  pub callbacks_refine :
      (calls : List (Call F))
      → answers new_callback_container calls ≡ promised_answers (λ t k. none) calls
  unfolding new_callback_container
  callbacks_refine calls = answers-ReadsAs calls [] (λ t k. none) get-nothing
