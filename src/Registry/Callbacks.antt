-- ===== src/Registry/Callbacks.antt =====
-- internal/server/container/callback.go: the callbacks of the requests that wait for an answer, by
-- tunnel and request. `F` is the type of callbacks; callers store function literals, never nil.
pub mod Leaks
pub mod Refines
use inlets.Common.{List, [], ◌∷◌, Option, none, some, Bytes, bytes_key}
use inlets.Common.Dict
use inlets.Common.Dict.{Dict}

abbrev pub CallbackContainer : Type 0 → Type 0
CallbackContainer F = Dict Bytes (Dict Bytes F)

module _ {F : Type 0} where
  unfoldable pub new_callback_container : CallbackContainer F
  new_callback_container = []

  unfoldable pub get : CallbackContainer F → Bytes → Bytes → Option F
  get c tcp_id request_id = elim (Dict.get tcp_id c) [
    | none ↦ none
    | some tcp_callbacks ↦ Dict.get request_id tcp_callbacks
  ]

  -- what is left after `delete(tcpCallbacks, requestId)`
  unfoldable pub deleted : CallbackContainer F → Bytes → Dict Bytes F → CallbackContainer F
  deleted c tcp_id [] = Dict.remove tcp_id c
  deleted c tcp_id (e ∷ m) = Dict.put tcp_id (e ∷ m) c

  unfoldable pub take : CallbackContainer F → Bytes → Bytes → CallbackContainer F × Option F
  take c tcp_id request_id = elim (Dict.get tcp_id c) [
    | none ↦ (c, none)
    | some tcp_callbacks ↦ elim (Dict.get request_id tcp_callbacks) [
      | none ↦ (c, none)
      | some callback ↦ (deleted c tcp_id (Dict.remove request_id tcp_callbacks), some callback)
    ]
  ]

  -- `c.callbacks[tcpId]`, which the method makes first where it is nil
  unfoldable pub callbacks_of : Option (Dict Bytes F) → Dict Bytes F
  callbacks_of none = []
  callbacks_of (some m) = m

  unfoldable pub set : CallbackContainer F → Bytes → Bytes → F → CallbackContainer F
  set c tcp_id request_id callback =
      Dict.put tcp_id (Dict.put request_id callback (callbacks_of (Dict.get tcp_id c))) c

  unfoldable pub remove : CallbackContainer F → Bytes → CallbackContainer F
  remove c tcp_id = Dict.remove tcp_id c
