-- ===== src/Protocol/MessageType.antt =====
-- `MessageType` of internal/server/protocol/binary.go.
use inlets.Common.{ℕ}

abbrev pub http_request : ℕ
http_request = 1

abbrev pub http_response : ℕ
http_response = 2

abbrev pub tcp_data : ℕ
tcp_data = 3

abbrev pub tcp_close : ℕ
tcp_close = 5

abbrev pub http_request_head : ℕ
http_request_head = 7

abbrev pub http_request_body : ℕ
http_request_body = 8

abbrev pub http_response_head : ℕ
http_response_head = 9

abbrev pub http_response_body : ℕ
http_response_body = 10
