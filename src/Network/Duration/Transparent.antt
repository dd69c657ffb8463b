-- ===== src/Network/Duration/Transparent.antt =====
-- The buffer between the handler and the client changes no response of an orderly handler.
use mathlib.Core.List.{append_assoc, append-nil}
use soroban_rpc.Common.{
  ℕ, ◌≡◌, refl, sym, ◌∙◌, ap, false, Option, none, some, List, [], ◌∷◌, ◌++◌, ◌==◌,
}
use soroban_rpc.Db.Cache.{assign}
use soroban_rpc.Network.Duration.Buffer.{
  Header, ResponseWriter, BufferedResponseWriter, WriterCall, set_header, write_status, write_bytes,
  direct_call, make_buffered_response_writer, buffered_call, write_buffer_out, write_out,
}

abbrev pub direct_calls : ResponseWriter → List WriterCall → ResponseWriter
direct_calls rw [] = rw
direct_calls rw (c ∷ cs) = direct_calls (direct_call rw c) cs

abbrev pub buffered_calls : BufferedResponseWriter → List WriterCall → BufferedResponseWriter
buffered_calls w [] = w
buffered_calls w (c ∷ cs) = buffered_calls (buffered_call w c) cs

-- Headers first, then the status if any, then the body.
abbrev pub set_all : List (List ℕ × List (List ℕ)) → List WriterCall
set_all [] = []
set_all (h ∷ hs) = set_header h.0 h.1 ∷ set_all hs

abbrev pub status_of : Option ℕ → List WriterCall
status_of none = []
status_of (some n) = write_status n ∷ []

abbrev pub write_all : List (List ℕ) → List WriterCall
write_all [] = []
write_all (b ∷ bs) = write_bytes b ∷ write_all bs

abbrev pub orderly : List (List ℕ × List (List ℕ)) → Option ℕ → List (List ℕ) → List WriterCall
orderly hs status bs = set_all hs ++ (status_of status ++ write_all bs)

-- What the client sees: the status, with 200 where none was written, the headers and the body.
abbrev pub seen_of : Option (ℕ × Header) → Header → List ℕ → ℕ × (Header × List ℕ)
seen_of none header body = (200, (header, body))
seen_of (some (status, header)) _ body = (status, (header, body))

abbrev pub client_sees : ResponseWriter → ℕ × (Header × List ℕ)
client_sees rw = seen_of rw.sent rw.header rw.body

abbrev headers_after : Header → List (List ℕ × List (List ℕ)) → Header
headers_after h [] = h
headers_after h (x ∷ xs) = headers_after (assign h x.0 (some x.1)) xs

abbrev concat : List (List ℕ) → List ℕ
concat [] = []
concat (b ∷ bs) = b ++ concat bs

direct-set_all :
    (rw : ResponseWriter) (hs : List (List ℕ × List (List ℕ))) (cs : List WriterCall)
    → direct_calls rw (set_all hs ++ cs)
      ≡ direct_calls (record rw { header = headers_after rw.header hs }) cs
direct-set_all rw [] cs = refl
direct-set_all rw (h ∷ hs) cs =
    direct-set_all (record rw { header = assign rw.header h.0 (some h.1) }) hs cs

buffered-set_all :
    (w : BufferedResponseWriter) (hs : List (List ℕ × List (List ℕ))) (cs : List WriterCall)
    → buffered_calls w (set_all hs ++ cs)
      ≡ buffered_calls (record w { buffered_header = headers_after w.buffered_header hs }) cs
buffered-set_all w [] cs = refl
buffered-set_all w (h ∷ hs) cs =
    buffered-set_all (record w { buffered_header = assign w.buffered_header h.0 (some h.1) }) hs cs

buffered-write_all :
    (w : BufferedResponseWriter) (bs : List (List ℕ))
    → buffered_calls w (write_all bs) ≡ record w { buffer = w.buffer ++ concat bs }
buffered-write_all w [] = rw append-nil refl
buffered-write_all w (b ∷ bs) =
    buffered-write_all (record w { buffer = w.buffer ++ b }) bs ∙ rw append_assoc refl

-- Writes behind a status that was sent only add to the body.
direct-write_sent :
    (h h' : Header) (n : ℕ) (body : List ℕ) (bs : List (List ℕ))
    → direct_calls (record { header = h; sent = some (n, h'); body = body }) (write_all bs)
      ≡ record { header = h; sent = some (n, h'); body = body ++ concat bs }
direct-write_sent h h' n body [] = rw append-nil refl
direct-write_sent h h' n body (b ∷ bs) =
    direct-write_sent h h' n (body ++ b) bs ∙ rw append_assoc refl

-- Writes with no status send 200 with the first of them.
direct-write_unsent :
    (h : Header) (bs : List (List ℕ))
    → client_sees (direct_calls (record { header = h; sent = none; body = [] }) (write_all bs))
      ≡ (200, (h, concat bs))
direct-write_unsent h [] = refl
direct-write_unsent h (b ∷ bs) = ap client_sees (direct-write_sent h h 200 b bs)

write_buffer_out-seen :
    (h : Header) (sent : Option (ℕ × Header)) (bytes : List ℕ) (n : ℕ)
    → seen_of sent h [] ≡ (n, (h, []))
    → client_sees (write_buffer_out bytes false (record { header = h; sent = sent; body = [] }))
      ≡ (n, (h, bytes))
write_buffer_out-seen h none [] n e = e
write_buffer_out-seen h (some x) [] n e = e
write_buffer_out-seen h none (b ∷ bytes) n e = ap (λ p. (p.0, (p.1.0, b ∷ bytes))) e
write_buffer_out-seen h (some (m, h')) (b ∷ bytes) n e = ap (λ p. (p.0, (p.1.0, b ∷ bytes))) e

abbrev pub unsent : Header → ResponseWriter
unsent h = record { header = h; sent = none; body = [] }

-- A status other than 0, which net/http refuses.
abbrev pub IsStatus : Option ℕ → Type 0
IsStatus none = Unit
IsStatus (some n) = (n == 0) ≡ false

abbrev status_seen : Option ℕ → ℕ
status_seen none = 200
status_seen (some n) = n

direct-seen :
    (h : Header) (status : Option ℕ) (bs : List (List ℕ))
    → client_sees (direct_calls (unsent h) (status_of status ++ write_all bs))
      ≡ (status_seen status, (h, concat bs))
direct-seen h none bs = direct-write_unsent h bs
direct-seen h (some n) bs = ap client_sees (direct-write_sent h h n [] bs)

buffered-seen :
    (start h : Header) (status : Option ℕ) (bs : List (List ℕ))
    → IsStatus status
    → client_sees (
        write_out
          (buffered_calls
            (record { buffered_header = h; buffer = []; status_code = 0 })
            (status_of status ++ write_all bs))
          false
          (unsent start))
      ≡ (status_seen status, (h, concat bs))
unfolding write_out
buffered-seen start h none bs k =
    ap (λ w. client_sees (write_out w false (unsent start)))
      (buffered-write_all (record { buffered_header = h; buffer = []; status_code = 0 }) bs)
    ∙ write_buffer_out-seen h none (concat bs) 200 refl
buffered-seen start h (some n) bs k =
    ap (λ w. client_sees (write_out w false (unsent start)))
      (buffered-write_all (record { buffered_header = h; buffer = []; status_code = n }) bs)
    ∙ rw k (write_buffer_out-seen h (some (n, h)) (concat bs) n refl)

-- A handler that sets headers, then writes a status at most once, then writes a body in any number of
-- pieces, gives a client that is still there the same response through the buffer and WriteOut as
-- straight on the writer of net/http.
pub write_out_transparent :
    (h : Header) (hs : List (List ℕ × List (List ℕ))) (status : Option ℕ) (bs : List (List ℕ))
    → IsStatus status
    → client_sees (
        write_out
          (buffered_calls (make_buffered_response_writer (unsent h)) (orderly hs status bs))
          false
          (unsent h))
      ≡ client_sees (direct_calls (unsent h) (orderly hs status bs))
write_out_transparent h hs status bs k =
    ap (λ w. client_sees (write_out w false (unsent h)))
      (buffered-set_all (make_buffered_response_writer (unsent h)) hs
        (status_of status ++ write_all bs))
    ∙ buffered-seen h (headers_after h hs) status bs k
    ∙ sym (direct-seen (headers_after h hs) status bs)
    ∙ ap client_sees (sym (direct-set_all (unsent h) hs (status_of status ++ write_all bs)))
