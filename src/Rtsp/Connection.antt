-- ===== src/Rtsp/Connection.antt =====
-- `RtspConnection` of crates/hc-net/src/rtsp.rs: one request at a time over a stream, with the reads
-- that the stream gives.
use horizon_cast.Base.{ℕ, ◌+◌, Option, none, some, List, [], ◌∷◌, ◌++◌, drop}
use mathlib.Core.Option.{get_or}
use horizon_cast.Base.Words.{Bytes, u32}
use horizon_cast.Base.Text.{text, decimal}
use horizon_cast.Rtsp.Codec.{
  Invalid, Parsed, RtspRequest, RtspResponse, header, invalid, message, need_more, panicked, parse,
  serialize,
}

-- What a read from the stream gives: bytes (none of them if the peer has closed), or an error.
pub data Read : Type 0 where
  bytes : Bytes → Read
  failed : Read

pub record RtspConnection : Type 0 where
  pub buf : Bytes
  pub cseq : ℕ

-- `RtspConnection::from_stream`.
abbrev pub from_stream : RtspConnection
from_stream = record { buf = []; cseq = 0 }

-- `RtspConnection::next_cseq`.
abbrev pub next_cseq : RtspConnection → ℕ
next_cseq conn = u32 (conn.cseq + 1)

-- How a request ends; `waiting` is a read that has not returned yet.
pub data Outcome : Type 0 where
  answered : RtspResponse → Outcome
  protocol_error : Invalid → Outcome
  write_failed flush_failed read_failed closed crashed waiting : Outcome

-- What is left in the buffer, the outcome, and the reads to come.
pub record Waited : Type 0 where
  pub left : Bytes
  pub outcome : Outcome
  pub unread : List Read

-- How the loop ends without a read, if it does.
unfoldable pub settled : Bytes → List Read → Parsed → Option Waited
settled buf reads need_more = none
settled buf reads panicked = some (record { left = buf; outcome = crashed; unread = reads })
settled buf reads (invalid e) =
    some (record { left = buf; outcome = protocol_error e; unread = reads })
settled buf reads (message r consumed) =
    some (record { left = drop consumed buf; outcome = answered r; unread = reads })

-- The read loop.
unfoldable pub await_response : Bytes → List Read → Waited
await_response buf [] =
    get_or (settled buf [] (parse buf)) (record { left = buf; outcome = waiting; unread = [] })
await_response buf (failed ∷ reads) =
    get_or (settled buf (failed ∷ reads) (parse buf))
      (record { left = buf; outcome = read_failed; unread = reads })
await_response buf (bytes [] ∷ reads) =
    get_or (settled buf (bytes [] ∷ reads) (parse buf))
      (record { left = buf; outcome = closed; unread = reads })
await_response buf (bytes (c ∷ chunk) ∷ reads) =
    let more = await_response (buf ++ c ∷ chunk) reads in
    get_or (settled buf (bytes (c ∷ chunk) ∷ reads) (parse buf)) more

-- How the write and the flush of a request go.
pub data Written : Type 0 where
  written write_error flush_error : Written

pub record Exchange : Type 0 where
  pub connection : RtspConnection
  pub sent : Bytes
  pub outcome : Outcome
  pub unread : List Read

-- `RtspConnection::request`: the bytes given to the stream, and how the request ends.
unfoldable pub request : RtspRequest → Written → List Read → RtspConnection → Exchange
request req how reads conn = by_write how
  where
    cseq : ℕ
    cseq = next_cseq conn

    sent : Bytes
    sent = serialize (header (text "CSeq") (decimal cseq) req)

    by_write : Written → Exchange
    by_write write_error = record {
      connection = record conn { cseq = cseq };
      sent = sent;
      outcome = write_failed;
      unread = reads;
    }
    by_write flush_error = record {
      connection = record conn { cseq = cseq };
      sent = sent;
      outcome = flush_failed;
      unread = reads;
    }
    by_write written =
        let end = await_response conn.buf reads in
        record {
          connection = record { buf = end.left; cseq = cseq };
          sent = sent;
          outcome = end.outcome;
          unread = end.unread;
        }
