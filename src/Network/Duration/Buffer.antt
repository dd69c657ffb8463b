-- ===== src/Network/Duration/Buffer.antt =====
-- bufferedResponseWriter of internal/network/requestdurationlimiter.go, and what ServeHTTP and Handle
-- make of a reply. A header map is a function from keys; net/http sends the headers as they are when
-- the status is written, which the first write of a body does with 200 where nothing was written.
use soroban_rpc.Common.{ℕ, Bool, Option, none, some, List, [], ◌∷◌, ◌++◌, ◌==◌, if◌then◌else◌}
use soroban_rpc.Db.Cache.{GoMap, assign}
use soroban_rpc.Network.Duration.{
  result, panicked, Reply, passed_on, completed, timed_out, abandoned,
}

-- http.Header
abbrev pub Header : Type 0
Header = GoMap (List (List ℕ))

-- http.ResponseWriter of net/http
pub record ResponseWriter : Type 0 where
  pub header : Header
  pub sent : Option (ℕ × Header)
  pub body : List ℕ

-- bufferedResponseWriter
pub record BufferedResponseWriter : Type 0 where
  pub buffered_header : Header
  pub buffer : List ℕ
  pub status_code : ℕ

-- What a handler does with its writer.
pub data WriterCall : Type 0 where
  set_header : List ℕ → List (List ℕ) → WriterCall
  write_status : ℕ → WriterCall
  write_bytes : List ℕ → WriterCall

abbrev pub send : ResponseWriter → Option (ℕ × Header) → ℕ → ResponseWriter
send rw none status = record rw { sent = some (status, rw.header) }
send rw (some _) status = rw

-- WriteHeader and Write of net/http: a second status is ignored.
abbrev pub write_header : ResponseWriter → ℕ → ResponseWriter
write_header rw status = send rw rw.sent status

abbrev pub write_body : ResponseWriter → List ℕ → ResponseWriter
write_body rw bytes = record (write_header rw 200) { body = (write_header rw 200).body ++ bytes }

abbrev pub direct_call : ResponseWriter → WriterCall → ResponseWriter
direct_call rw (set_header k v) = record rw { header = assign rw.header k (some v) }
direct_call rw (write_status n) = write_header rw n
direct_call rw (write_bytes b) = write_body rw b

-- makeBufferedResponseWriter
abbrev pub make_buffered_response_writer : ResponseWriter → BufferedResponseWriter
make_buffered_response_writer rw = record {
  buffered_header = rw.header;
  buffer = [];
  status_code = 0;
}

-- Header, Write and WriteHeader of the buffer.
abbrev pub buffered_call : BufferedResponseWriter → WriterCall → BufferedResponseWriter
buffered_call w (set_header k v) = record w {
  buffered_header = assign w.buffered_header k (some v);
}
buffered_call w (write_status n) = record w { status_code = n }
buffered_call w (write_bytes b) = record w { buffer = w.buffer ++ b }

-- WriteOut: the headers are replaced by those of the buffer, then the status and the body follow.
abbrev pub write_status_out : BufferedResponseWriter → ResponseWriter → ResponseWriter
write_status_out w rw = if w.status_code == 0 then rw else write_header rw w.status_code

abbrev pub write_buffer_out : List ℕ → Bool → ResponseWriter → ResponseWriter
write_buffer_out [] client_gone rw = rw
write_buffer_out (b ∷ bytes) client_gone rw = if client_gone then rw else write_body rw (b ∷ bytes)

unfoldable pub write_out : BufferedResponseWriter → Bool → ResponseWriter → ResponseWriter
write_out w client_gone rw =
    write_buffer_out w.buffer client_gone
      (write_status_out w (record rw { header = w.buffered_header }))

-- ServeHTTP: what it writes for a reply; a reply of the handler handed straight on is written already.
unfoldable pub http_reply : Reply BufferedResponseWriter → Bool → ResponseWriter → ResponseWriter
unfolding write_out
http_reply (passed_on c) client_gone rw = rw
http_reply (completed (result w)) client_gone rw = write_out w client_gone rw
http_reply (completed panicked) client_gone rw = write_header rw 500
http_reply timed_out client_gone rw = write_header rw 504
http_reply abandoned client_gone rw = rw

-- Handle: the answer of the handler, or one of the two errors, or that of the context.
pub data RpcAnswer (A : Type 0) : Type 0 where
  handler_answer : A → RpcAnswer A
  handler_panic : RpcAnswer A
  internal_issue : RpcAnswer A
  exceeded_limit : RpcAnswer A
  context_error : RpcAnswer A

unfoldable pub rpc_reply : {A : Type 0} → Reply A → RpcAnswer A
rpc_reply (passed_on (result a)) = handler_answer a
rpc_reply (passed_on panicked) = handler_panic
rpc_reply (completed (result a)) = handler_answer a
rpc_reply (completed panicked) = internal_issue
rpc_reply timed_out = exceeded_limit
rpc_reply abandoned = context_error
