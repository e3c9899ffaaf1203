-- ===== src/BodyReader.antt =====
-- pkg/handler/body_reader.go: the reader that a data store gets for a request body. `http.MaxBytesReader`
-- stands below it. What happens to the body is a list of events in the order in which they take effect.
pub mod Laws
use tusd.Base.{
  ℕ, ◌+◌, ◌-◌, ◌≡◌, Bool, true, false, List, [], ◌∷◌, ◌++◌, Option, none, some, Bytes, codes,
  length, take, leb, if◌then◌else◌,
}
use tusd.Http.{Failure, detailed, other}
use tusd.Http.Errors.{err_unexpected_eof, err_connection_reset, err_read_timeout, err_size_exceeded}

-- The errors that `Read` tells apart.
pub data ReadError : Type 0 where
  eof body_read_after_close closed_pipe unexpected_eof : ReadError
  connection_reset timeout max_bytes : ReadError
  other_error : Bytes → ReadError

-- One `Read` of the request body, or a `closeWithError` by another goroutine.
pub data BodyEvent : Type 0 where
  read : Bytes → Option ReadError → BodyEvent
  close : Failure → BodyEvent

pub record BodyReader : Type 0 where
  pub remaining : ℕ  -- the bytes that MaxBytesReader still lets through
  pub bytes_counter : ℕ
  pub error : Option Failure

unfoldable pub new_body_reader : ℕ → BodyReader
new_body_reader max_size = record { remaining = max_size; bytes_counter = 0; error = none }

pub record Limited : Type 0 where
  pub bytes : Bytes
  pub error : Option ReadError
  pub left : ℕ

-- `http.MaxBytesReader`: what is over the limit is cut off and turned into an error.
unfoldable pub limited_read : ℕ → Bytes → Option ReadError → Limited
limited_read remaining bytes error =
    if leb (length bytes) remaining
    then record { bytes = bytes; error = error; left = remaining - length bytes }
    else record { bytes = take remaining bytes; error = some max_bytes; left = 0 }

-- The error that `Read` stores; none for the two that only end the stream.
unfoldable pub stored_error : ReadError → Option Failure
stored_error eof = none
stored_error body_read_after_close = none
stored_error closed_pipe = some (detailed err_unexpected_eof)
stored_error unexpected_eof = some (detailed err_unexpected_eof)
stored_error connection_reset = some (detailed err_connection_reset)
stored_error timeout = some (detailed err_read_timeout)
stored_error max_bytes = some (detailed err_size_exceeded)
stored_error (other_error text) = some (other text)

-- What one `Read` hands to the store, and whether it reports `io.EOF`.
pub record Delivery : Type 0 where
  pub reader : BodyReader
  pub bytes : Bytes
  pub ended : Bool

unfoldable pub deliver : BodyReader → Limited → Delivery
deliver r l = elim l.error [
  | none ↦ record { reader = counted; bytes = l.bytes; ended = false }
  | some e ↦ elim (stored_error e) [
    | none ↦ record { reader = counted; bytes = l.bytes; ended = true }
    | some failure ↦ record {
      reader = record counted { error = some failure };
      bytes = l.bytes;
      ended = false;
    }
  ]
]
  where
    counted : BodyReader
    counted = record r { remaining = l.left; bytes_counter = r.bytes_counter + length l.bytes }

unfoldable pub body_read : BodyReader → Bytes → Option ReadError → Delivery
unfolding deliver limited_read stored_error
body_read r bytes error = elim r.error [
  | some failure ↦ record { reader = r; bytes = []; ended = true }
  | none ↦ deliver r (limited_read r.remaining bytes error)
]

unfoldable pub close_with_error : BodyReader → Failure → BodyReader
close_with_error r cause = record r { error = some cause }

-- A store that reads to the end: what it gets from each event, and the reader afterwards. After
-- `io.EOF` it reads no more.
unfoldable pub drain : List BodyEvent → Bool → BodyReader → List Bytes × BodyReader
drain [] ended r = ([], r)
drain (close cause ∷ events) ended r =
    let (parts, r') = drain events ended (close_with_error r cause) in ([] ∷ parts, r')
drain (read bytes error ∷ events) true r = let (parts, r') = drain events true r in ([] ∷ parts, r')
drain (read bytes error ∷ events) false r =
    let d = body_read r bytes error in
    let (parts, r') = drain events d.ended d.reader in (d.bytes ∷ parts, r')

unfoldable pub flatten : List Bytes → Bytes
flatten [] = []
flatten (part ∷ parts) = part ++ flatten parts

-- The bytes that a store gets which reads to the end.
unfoldable pub delivered : List BodyEvent → ℕ → Bytes
delivered events max_size = flatten (drain events false (new_body_reader max_size)).0

-- `hasError` after the first `reads` events; `io.EOF` is never stored.
unfoldable pub has_error : List BodyEvent → ℕ → ℕ → Option Failure
has_error events reads max_size =
    (drain (take reads events) false (new_body_reader max_size)).1.error
