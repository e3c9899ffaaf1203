-- ===== src/Handler/Chunk/Limit.antt =====
-- The limit that `writeChunk` of pkg/handler/unrouted_handler.go sets for a request body.
use tusd.Base.{
  ℕ, zero, suc, ◌-◌, ◌+◌, ◌≤◌, ◌<◌, true, false, ◌≡◌, refl, List, arith, length, ◌∙◌, ap, none,
}
use tusd.Base.Int.{
  ℤ, pos, negsuc, pos_part, half_range, add_pos, sub_pos, add_pos_overflow, ltb_ℤ, ◌+ℤ◌, ◌-ℤ◌,
}
use tusd.BodyReader.{BodyEvent, delivered, has_error}
use tusd.BodyReader.Laws.{length-delivered-le, delivered-sent, sent}
use tusd.DataStore.{FileInfo}
use tusd.Handler.Chunk.{max_body_size, to_limit, exceeds_size}

-- An upload of a known size that holds `offset` bytes of it.
pub record IsOpen (info : FileInfo) (offset size : ℕ) : Type 0 where
  pub known : info.size_is_deferred ≡ false
  pub at : info.offset ≡ pos offset
  pub of : info.size ≡ pos size
  pub within : offset ≤ size
  pub in_range : size < half_range

-- What is missing.
rest_of :
    (info : FileInfo) {offset size : ℕ}
    → IsOpen info offset size
    → info.size -ℤ info.offset ≡ pos (size - offset)
rest_of info {offset} {size} o = rw (o.at, o.of) (sub_pos size offset o.within o.in_range)

exceeds_size_sum :
    (info : FileInfo) {offset size : ℕ} (len : ℤ)
    → IsOpen info offset size
    → exceeds_size info len ≡ ltb_ℤ (pos size) (pos offset +ℤ len)
unfolding exceeds_size
exceeds_size_sum info len o = rw (o.known, o.at, o.of) refl

-- The limit never exceeds what is missing, where the request passes the check on its length, and the
-- sum of offset and length is an `int64`. A length that is unknown is negative.
limit-le :
    (max : ℤ) (info : FileInfo) (offset size : ℕ) (len : ℤ)
    → IsOpen info offset size
    → offset + pos_part len < half_range
    → exceeds_size info len ≡ false
    → offset + to_limit (max_body_size max info len) ≤ size
unfolding max_body_size to_limit
limit-le max info offset size (pos zero) o small h =
    rw (o.known, rest_of info o) (grind (arith, o.within))
limit-le max info offset size (pos (suc l)) o small h =
    grind (arith, exceeds_size_sum info (pos (suc l)) o, add_pos offset (suc l) small)
limit-le max info offset size (negsuc l) o small h =
    rw (o.known, rest_of info o) (grind (arith, o.within))

-- A request that passes the check on its length gives the store no more bytes than the upload lacks,
-- whatever the client sends. The upload has a known size, and the sum of its offset and the declared
-- length is an `int64`; a length that is unknown is negative.
pub delivered-within_size :
    (max : ℤ) (info : FileInfo) (offset size : ℕ) (len : ℤ) (events : List BodyEvent)
    → IsOpen info offset size
    → offset + pos_part len < half_range
    → exceeds_size info len ≡ false
    → offset + length (delivered events (to_limit (max_body_size max info len))) ≤ size
delivered-within_size max info offset size len events o small h = omega (
  arith,
  limit-le max info offset size len o small h,
  length-delivered-le events (to_limit (max_body_size max info len)),
)

-- For an upload of known size and a positive length that is an `int64`: where the sum of the offset and
-- the length is none, the check lets the request pass, and the limit is more than the upload lacks.
pub limit-overflow :
    (max : ℤ) (info : FileInfo) (offset size len : ℕ)
    → IsOpen info offset size
    → 0 < len
    → len < half_range
    → half_range ≤ offset + len
    → (exceeds_size info (pos len) ≡ false)
      × (size < offset + to_limit (max_body_size max info (pos len)))
unfolding max_body_size to_limit
limit-overflow max info offset size len o some_length l over = (
  exceeds_size_sum info (pos len) o
      ∙ grind (arith, add_pos_overflow offset len (omega (arith, o.within, o.in_range)) l over),
  grind (arith, o.within, o.in_range),
)

limit-declared :
    (max len : ℕ) (info : FileInfo)
    → info.size_is_deferred ≡ true
    → max < len
    → to_limit (max_body_size (pos max) info (pos len)) ≡ len
unfolding max_body_size to_limit
limit-declared max len info d l = grind arith

-- For an upload of unknown size, a declared length above the maximal size passes the check and is the limit, so
-- that a body of that length, in which the reader finds no error, reaches the store whole: more than the maximal size.
pub delivered-over_max :
    (max len : ℕ) (info : FileInfo) (events : List BodyEvent)
    → info.size_is_deferred ≡ true
    → max < len
    → length (sent events) ≡ len
    → has_error events (length events) len ≡ none
    → (exceeds_size info (pos len) ≡ false)
      × (to_limit (max_body_size (pos max) info (pos len)) ≡ len)
      × (delivered events (to_limit (max_body_size (pos max) info (pos len))) ≡ sent events)
      × (max < length (delivered events (to_limit (max_body_size (pos max) info (pos len)))))
unfolding exceeds_size
delivered-over_max max len info events d l all whole =
    let limit = limit-declared max len info d l in
    let reached = ap (delivered events) limit ∙ (delivered-sent events len whole).0 in
    (rw d refl, limit, reached, omega (arith, ap length reached, all))
