-- ===== src/Rtsp/Tests.antt =====
-- An exchange with a receiver, and the theorems applied to it.
use horizon_cast.Base.{ℕ, ◌+◌, ◌^◌, ◌≤◌, ◌≡◌, ◌≢◌, ◌↔◌, refl, sym, ◌∙◌, List, [], ◌∷◌, ◌++◌, arith}
use horizon_cast.Base.Words.{Bytes}
use horizon_cast.Base.Text.{
  text, same, split_once, trim, strip_prefix, parse_unsigned, to_ascii_lowercase_char,
}
use horizon_cast.Base.Text.Utf8.{from_utf8}
use horizon_cast.Rtsp.Codec.{
  RtspRequest, new, header, find_header, find_subsequence, is_prefix, split_lines, status_parts,
  header_line, headers_of, parse_head, frame, parse, need_more, message, good, panicked,
  content_len, RtspResponse,
}
use horizon_cast.Rtsp.Connection.{await_response, write_error, written, bytes, from_stream}
use horizon_cast.Rtsp.Framing.{parse-append}
use horizon_cast.Rtsp.Chunks.{reads_of, bytes_of, IsAnswered, await_response-IsAnswered}
use horizon_cast.Rtsp.Requests.{Attempt, sent_by, numbered_from, request-cseq}
use horizon_cast.Rtsp.Overflow.{frame_panicked_iff}

abbrev reply : Bytes
reply = text "RTSP/1.0 200 OK\r\nCSeq: 1\r\nContent-Length: 2\r\n\r\nok"

abbrev response : RtspResponse
response = record {
  status = 200;
  reason = text "OK";
  headers = (text "CSeq", text "1") ∷ (text "Content-Length", text "2") ∷ [];
  body = text "ok";
}

reply_parses : parse reply ≡ message response 49
unfolding parse find_subsequence is_prefix frame from_utf8 parse_head strip_prefix status_parts
    split_once split_lines parse_unsigned headers_of header_line find_header same trim
    to_ascii_lowercase_char
reply_parses = refl

settled : parse reply ≢ need_more
settled h = let e : message response 49 ≡ need_more = sym reply_parses ∙ h in cc

parse-append_example : parse (reply ++ text "RTSP/1.0") ≡ parse reply
parse-append_example = parse-append reply (text "RTSP/1.0") settled

-- The reply in two reads, the cut inside of its head.
abbrev chunks : List (ℕ × Bytes)
chunks =
    (b'R', text "TSP/1.0 200 OK\r\nCSeq: 1\r\nConte") ∷ (b'n', text "t-Length: 2\r\n\r\nok") ∷ []

await_response-IsAnswered_example :
    IsAnswered (bytes_of (reads_of chunks)) response 49 (await_response [] (reads_of chunks))
await_response-IsAnswered_example = await_response-IsAnswered chunks [] response 49 reply_parses

abbrev pairing : RtspRequest
pairing = header (text "content-length") (text "99") (new (text "POST") (text "/pair-setup"))

abbrev two_attempts : List Attempt
two_attempts =
    record { req = pairing; how = write_error; reads = [] }
    ∷ record { req = pairing; how = written; reads = bytes reply ∷ [] }
    ∷ []

request-cseq_example : sent_by two_attempts from_stream ≡ numbered_from 0 two_attempts
request-cseq_example = request-cseq two_attempts from_stream (omega arith)

frame_panicked_iff_example :
    (frame
        (text "RTSP/1.0 200 OK\r\n\r\n")
        15
        (good 200 (text "OK") ((text "Content-Length", text "18446744073709551615") ∷ []))
      ≡ panicked)
    ↔ (2 ^ 64 ≤ 15 + 4 + content_len ((text "Content-Length", text "18446744073709551615") ∷ []))
frame_panicked_iff_example =
    frame_panicked_iff (text "RTSP/1.0 200 OK\r\n\r\n") 15 200 (text "OK")
      ((text "Content-Length", text "18446744073709551615") ∷ []) (omega arith) (omega arith)

-- A receiver that declares the greatest length makes the parser panic.
greatest_length :
    parse (text "RTSP/1.0 200 OK\r\nContent-Length: 18446744073709551615\r\n\r\n") ≡ panicked
unfolding parse find_subsequence is_prefix frame from_utf8 parse_head strip_prefix status_parts
    split_once split_lines parse_unsigned headers_of header_line find_header same trim
    to_ascii_lowercase_char
greatest_length = refl
