-- ===== src/Adapter/Register.antt =====
-- internal/server/protocol/binary.go: the registration of handlers and connections, and the end of
-- streams and of the adapter.
use inlets.Common.{ℕ, ◌+◌, Bool, Option, none, some, Bytes, ℕ_key, bytes_key}
use inlets.Common.Dict
use inlets.Manager
use inlets.Flow
use inlets.Adapter.{
  Adapter, Exec, ◌>>=◌, ◌>>◌, done, pure, get_adapter, lift, set_stream_manager,
  set_flow_controller,
}

-- a method that only assigns
abbrev assign : Adapter → Exec (Unit {0})
assign a _ = done a

unfoldable pub on_http_request : ℕ → Exec (Unit {0})
on_http_request h a = assign (record a { http_request_handler = some h }) a

unfoldable pub on_http_response : ℕ → Exec (Unit {0})
on_http_response h a = assign (record a { http_response_handler = some h }) a

unfoldable pub on_http_request_head : ℕ → Exec (Unit {0})
on_http_request_head h a = assign (record a { http_request_head_handler = some h }) a

unfoldable pub on_http_request_body : ℕ → Exec (Unit {0})
on_http_request_body h a = assign (record a { http_request_body_handler = some h }) a

unfoldable pub on_http_response_head : ℕ → Exec (Unit {0})
on_http_response_head h a = assign (record a { http_response_head_handler = some h }) a

unfoldable pub on_http_response_body : ℕ → Exec (Unit {0})
on_http_response_body h a = assign (record a { http_response_body_handler = some h }) a

-- The number that comes back is what the function to unsubscribe has captured.
unfoldable pub on_tcp_data : ℕ → Exec ℕ
on_tcp_data h a =
    let n = a.handler_id_counter in
    pure n (record a {
      handler_id_counter = n + 1;
      tcp_data_handlers = Dict.put n h a.tcp_data_handlers;
    })

unfoldable pub unsubscribe_tcp_data : ℕ → Exec (Unit {0})
unsubscribe_tcp_data n a =
    assign (record a { tcp_data_handlers = Dict.remove n a.tcp_data_handlers }) a

unfoldable pub on_tcp_close : ℕ → Exec ℕ
on_tcp_close h a =
    let n = a.tcp_close_handler_id_counter in
    pure n (record a {
      tcp_close_handler_id_counter = n + 1;
      tcp_close_handlers = Dict.put n h a.tcp_close_handlers;
    })

unfoldable pub unsubscribe_tcp_close : ℕ → Exec (Unit {0})
unsubscribe_tcp_close n a =
    assign (record a { tcp_close_handlers = Dict.remove n a.tcp_close_handlers }) a

unfoldable pub set_data_channel_for_stream : Bytes → ℕ → Exec (Unit {0})
set_data_channel_for_stream id conn a =
    assign (record a { data_channels = Dict.put id conn a.data_channels }) a

abbrev when_there : {A : Type 0} → Option A → (A → Exec (Unit {0})) → Exec (Unit {0})
when_there none f = done
when_there (some x) f = f x

unfoldable pub remove_data_channel_for_stream : Bytes → Exec (Unit {0})
remove_data_channel_for_stream id a =
    (assign (record a { data_channels = Dict.remove id a.data_channels })
        >> ((get_adapter >>= λ b.
              when_there b.flow_controller (λ fc. set_flow_controller (Flow.remove_stream fc id)))
            >> (get_adapter >>= λ b.
                when_there b.stream_manager
                  (λ sm. set_stream_manager (Manager.remove_stream sm id)))))
      a

-- `Destroy`
unfoldable pub destroy : Exec (Unit {0})
destroy =
    (get_adapter >>= λ a.
    when_there a.stream_manager (λ sm. lift (Manager.destroy sm) >>= set_stream_manager))
    >> (get_adapter >>= λ a.
        when_there a.flow_controller (λ fc. set_flow_controller (Flow.clear fc)))

unfoldable pub set_data_channel : Bool → Exec (Unit {0})
set_data_channel there a = assign (record a { data_conn = there }) a
