-- ===== src/BodyReader/Laws.antt =====
-- The limit on a body is kept, and without an error nothing of the body is lost.
use tusd.Base.{
  suc, ℕ, ◌+◌, ◌≤◌, ◌≡◌, ◌≢◌, refl, ap, Bool, true, false, List, [], ◌∷◌, ◌++◌, Option, none, some,
  Bytes, length, length-append, length-take, subst, take_all, append-nil, Option-cases, inl, inr,
  arith,
}
use tusd.BodyReader.{
  ReadError, BodyEvent, read, close, BodyReader, new_body_reader, limited_read, deliver, body_read,
  close_with_error, drain, flatten, delivered, has_error,
}

limited_read_le :
    (n : ℕ) (bytes : Bytes) (e : Option ReadError)
    → length (limited_read n bytes e).bytes + (limited_read n bytes e).left ≤ n
unfolding limited_read
limited_read_le n bytes e = ground (arith, length-take n bytes)

body_read_le :
    (r : BodyReader) (bytes : Bytes) (e : Option ReadError)
    → (length (body_read r bytes e).bytes + (body_read r bytes e).reader.remaining ≤ r.remaining)
      × ((body_read r bytes e).reader.bytes_counter
          ≡ r.bytes_counter + length (body_read r bytes e).bytes)
unfolding body_read deliver
body_read_le r bytes e = ground (arith, limited_read_le r.remaining bytes e)

drain_le :
    (events : List BodyEvent) (ended : Bool) (r : BodyReader)
    → (length (flatten (drain events ended r).0) + (drain events ended r).1.remaining ≤ r.remaining)
      × ((drain events ended r).1.bytes_counter
          ≡ r.bytes_counter + length (flatten (drain events ended r).0))
unfolding drain flatten close_with_error
drain_le [] ended r = (omega arith, omega arith)
drain_le (close cause ∷ events) ended r = drain_le events ended (close_with_error r cause)
drain_le (read bytes e ∷ events) true r = drain_le events true r
drain_le (read bytes e ∷ events) false r =
    let d = body_read r bytes e in
    omega (
      arith,
      body_read_le r bytes e,
      drain_le events d.ended d.reader,
      length-append d.bytes (flatten (drain events d.ended d.reader).0),
    )

-- Whatever the client sends, the store gets no more bytes than the limit.
pub length-delivered-le :
    (events : List BodyEvent) (max_size : ℕ) → length (delivered events max_size) ≤ max_size
unfolding delivered new_body_reader
length-delivered-le events max_size =
    omega (arith, drain_le events false (new_body_reader max_size))

-- What the client sends up to the end of the stream.
unfoldable pub sent : List BodyEvent → Bytes
sent [] = []
sent (close cause ∷ events) = sent events
sent (read bytes none ∷ events) = bytes ++ sent events
sent (read bytes (some e) ∷ events) = bytes

body_read_keeps_error :
    (r : BodyReader) (bytes : Bytes) (e : Option ReadError)
    → r.error ≢ none
    → (body_read r bytes e).reader.error ≢ none
unfolding body_read
body_read_keeps_error r bytes e h = ground arith

-- An error stays: no later event clears it.
drain_keeps_error :
    (events : List BodyEvent) (ended : Bool) (r : BodyReader)
    → r.error ≢ none
    → (drain events ended r).1.error ≢ none
unfolding drain close_with_error
drain_keeps_error [] ended r h = h
drain_keeps_error (close cause ∷ events) ended r h =
    drain_keeps_error events ended (close_with_error r cause) (ground arith)
drain_keeps_error (read bytes e ∷ events) true r h = drain_keeps_error events true r h
drain_keeps_error (read bytes e ∷ events) false r h =
    drain_keeps_error events _ _ (body_read_keeps_error r bytes e h)

drain_ended : (events : List BodyEvent) (r : BodyReader) → flatten (drain events true r).0 ≡ []
unfolding drain flatten
drain_ended [] r = refl
drain_ended (close cause ∷ events) r = drain_ended events (close_with_error r cause)
drain_ended (read bytes e ∷ events) r = drain_ended events r

-- A read that stores no error hands over all its bytes, and ends exactly at an error.
read_on :
    (r : BodyReader) (bytes : Bytes)
    → r.error ≡ none
    → (body_read r bytes none).reader.error ≡ none
    → ((body_read r bytes none).bytes ≡ bytes) × ((body_read r bytes none).ended ≡ false)
unfolding body_read deliver limited_read
read_on r bytes h k = ground arith

read_end :
    (r : BodyReader) (bytes : Bytes) (e : ReadError)
    → r.error ≡ none
    → (body_read r bytes (some e)).reader.error ≡ none
    → ((body_read r bytes (some e)).bytes ≡ bytes) × ((body_read r bytes (some e)).ended ≡ true)
unfolding body_read deliver limited_read
read_end r bytes e h k = ground arith

-- Where the reader ends without an error, it had none after this event.
no_error_before :
    (events : List BodyEvent) (ended : Bool) (r : BodyReader)
    → (drain events ended r).1.error ≡ none
    → r.error ≡ none
no_error_before events ended r h = elim (Option-cases r.error) [
  | inl e ↦ e
  | inr (f, e) ↦ absurd (drain_keeps_error events ended r (λ n. cc) h)
]

drain_whole :
    (events : List BodyEvent) (r : BodyReader)
    → (drain events false r).1.error ≡ none
    → flatten (drain events false r).0 ≡ sent events
unfolding drain flatten sent close_with_error
drain_whole [] r h = refl
drain_whole (close cause ∷ events) r h = drain_whole events (close_with_error r cause) h
drain_whole (read bytes none ∷ events) r h =
    let d = body_read r bytes none in
    let still = no_error_before events d.ended d.reader h in
    let here = read_on r bytes (no_error_before (read bytes none ∷ events) false r h) still in
    rw (here.0, here.1)
      (ap (λ rest. bytes ++ rest)
        (drain_whole events d.reader
          (subst (λ b. (drain events b d.reader).1.error ≡ none) here.1 h)))
drain_whole (read bytes (some e) ∷ events) r h =
    let d = body_read r bytes (some e) in
    let still = no_error_before events d.ended d.reader h in
    let here =
      read_end r bytes e (no_error_before (read bytes (some e) ∷ events) false r h) still in
    rw (here.0, here.1, drain_ended events d.reader) (append-nil bytes)

-- If the handler finds no error after a store has read to the end, then the store got exactly the
-- bytes that the client sent before the end of the stream, and these were within the limit.
pub delivered-sent :
    (events : List BodyEvent) (max_size : ℕ)
    → has_error events (length events) max_size ≡ none
    → (delivered events max_size ≡ sent events) × (length (sent events) ≤ max_size)
unfolding has_error delivered
delivered-sent events max_size h = (whole, rw (← whole) (length-delivered-le events max_size))
  where
    whole : flatten (drain events false (new_body_reader max_size)).0 ≡ sent events
    whole = drain_whole events (new_body_reader max_size) (
        subst (λ es. (drain es false (new_body_reader max_size)).1.error ≡ none)
          (take_all (length events) events (omega arith)) h)

pub length-drain :
    (events : List BodyEvent) (ended : Bool) (r : BodyReader)
    → length (drain events ended r).0 ≡ length events
unfolding drain
length-drain [] ended r = refl
length-drain (close cause ∷ events) ended r = ap suc (length-drain events ended _)
length-drain (read bytes error ∷ events) true r = ap suc (length-drain events true r)
length-drain (read bytes error ∷ events) false r =
    ap suc (length-drain events (body_read r bytes error).ended (body_read r bytes error).reader)
