-- ===== src/HttpData/Tests.antt =====
-- A request of one header, and a file of three bytes.
use xweb.Prelude.{
  Yields, ℕ, zero, suc, ◌≡◌, refl, inl, inr, List, [], ◌∷◌, ◌++◌, some, length, replicate,
  length-replicate, arith,
}
use xweb.Buffer.Transfer.{ReadResult, got}
use xweb.TcpConnection.{WriteResult, wrote}
use xweb.Channel.{channel_read, channel_write}
use xweb.Rio.{rio_init, newline}
use xweb.Rio.Lines.{Plain}
use xweb.Rio.Chunks.{Ahead, Delivers}
use xweb.Rio.Blocks.{Takes, Supplies}
use xweb.HttpData.{
  Io, new_http_data, handle_read, watch_for, max_line, serve_static, Header, file_type, c_text,
}
use xweb.HttpData.Headers.{IsHeader, request, handle_read-request}
use xweb.HttpData.Static.{Padded, serve_static-Padded}
use Prim.Native.Nat.{bit_or}

abbrev hi : List ℕ
hi = b'h' ∷ b'i' ∷ []

hi-IsHeader : IsHeader hi
unfolding Plain
hi-IsHeader = record {
  plain = (omega arith, (omega arith, tt));
  text = (omega arith, (omega arith, tt));
  some_text = λ e. ground (arith, e);
  short = omega arith;
}

abbrev message : List ℕ
message = hi ++ newline ∷ hi ++ newline ∷ b'\r' ∷ newline ∷ []

message-Ahead : Ahead (rio_init (got message ∷ got [] ∷ [])) (hi ++ newline ∷ request (hi ∷ []) [])
unfolding Ahead Delivers rio_init request
message-Ahead = (message, refl, ([], refl, refl))

handle_read-request_example :
    handle_read (new_http_data 0 5) 3 [] (got message ∷ got [] ∷ [])
    ≡ some (watch_for (new_http_data 0 5) (bit_or channel_read channel_write))
handle_read-request_example =
    handle_read-request (new_http_data 0 5) hi (hi ∷ []) 3 [] [] (got message ∷ got [] ∷ [])
      hi-IsHeader.plain (omega arith) (hi-IsHeader, tt) (omega arith) message-Ahead

abbrev file : List ℕ
file = 1 ∷ 2 ∷ 3 ∷ []

abbrev file_reads : List ReadResult
file_reads = got file ∷ got [] ∷ got [] ∷ []

file-Supplies : Supplies max_line file_reads max_line file
unfolding Supplies
file-Supplies = ([], refl, inr (omega arith, (refl, inr (refl, inl refl))))

bytewise : ℕ → List WriteResult
bytewise n = replicate n (wrote 1)

bytewise-Takes : (n : ℕ) → Takes (bytewise n)
unfolding Takes bytewise
bytewise-Takes zero = tt
bytewise-Takes (suc n) = bytewise-Takes n

length-bytewise : (n : ℕ) → length (bytewise n) ≡ n
unfolding bytewise
length-bytewise n = length-replicate n (wrote 1)

abbrev serving : Io
serving = record { reads = file_reads; writes = bytewise 3000; errno = 0; sent = [] }

-- Calls that leave the text "200", with the last byte 0.
abbrev printed : Header
printed buf type size = b'2' ∷ b'0' ∷ b'0' ∷ replicate 1021 0

printed-text : c_text (replicate {A = ℕ} 1021 0) ≡ []
unfolding c_text
printed-text = refl

serve_static-Padded_example :
    Yields (serve_static printed 2 (replicate max_line 0) serving hi 3) (λ io'.
      (body : List ℕ) × (io'.sent
        ≡ serving.sent ++ (c_text (printed (replicate max_line 0) (file_type hi) 3) ++ body))
      × Padded file body)
unfolding c_text
serve_static-Padded_example =
    serve_static-Padded printed 1 (replicate max_line 0) serving hi 3 file refl (omega arith)
      (omega arith) file-Supplies (bytewise-Takes 3000) (omega (arith, length-bytewise 3000))
