-- ===== src/Handler/Monad.antt =====
-- The state of one request over a store: the state monad with errors that the handlers run in.
use tusd.Base.{
  ℕ, ◌+◌, ◌-◌, ◌%◌, ◌^◌, Bool, ◌&&◌, List, [], ◌∷◌, ◌++◌, none, some, Bytes, text_eq, ◌==◌,
  if◌then◌else◌,
}
use tusd.Base.Int.{ℤ, pos, negsuc}
use tusd.Base.Dict.{Dict, lookup, insert}
use tusd.Http.{HttpResponse, HttpHeader, Error, Failure, Result, ok, err}
use tusd.DataStore.{StoreComposer, HookEvent}

-- The notifications on the channels `CreatedUploads`, `CompleteUploads` and `TerminatedUploads`.
pub data Notification : Type 0 where
  created completed terminated : HookEvent → Notification

-- What goes out through the response writer: a response, or bytes that are streamed behind one.
pub data Output : Type 0 where
  response : HttpResponse → Output
  streamed : Bytes → Output

-- `Metrics`; the counters are `uint64`.
pub record Metrics : Type 0 where
  pub requests_total : Dict ℕ
  pub errors_total : List ((Bytes × ℕ) × ℕ)
  pub bytes_received : ℕ
  pub uploads_finished : ℕ
  pub uploads_created : ℕ
  pub uploads_terminated : ℕ

-- `header` is `w.Header()`; `deferred` holds the IDs of the locks whose `Unlock` is deferred.
pub record World (S : StoreComposer) : Type 0 where
  pub store : S.State
  pub header : HttpHeader
  pub output : List Output
  pub events : List Notification
  pub metrics : Metrics
  pub deferred : List Bytes

module _ (S : StoreComposer) where
  abbrev pub H : Type 0 → Type 0
  H A = World S → Result A × World S

-- A call of the store.
unfoldable pub call : (S : StoreComposer) {A : Type 0} → (S.State → Result A × S.State) → H S A
call S f w = let (r, s) = f w.store in (r, record w { store = s })

module _ {S : StoreComposer} where
  -- Go's `if err != nil { return err }` behind a call.
  abbrev pub and_then : {A B : Type 0} → Result A × World S → (A → H S B) → Result B × World S
  and_then (ok a, w) f = f a w
  and_then (err e, w) f = (err e, w)

  infixl 5 ◌>>=◌ ◌>>◌
  unfoldable pub ◌>>=◌ : {A B : Type 0} → H S A → (A → H S B) → H S B
  ◌>>=◌ m f w = and_then (m w) f

  unfoldable pub ◌>>◌ : {B : Type 0} → H S (Unit {0}) → H S B → H S B
  unfolding ◌>>=◌
  ◌>>◌ m k = m >>= λ _. k

  unfoldable pub pure : {A : Type 0} → A → H S A
  pure a w = (ok a, w)

  unfoldable pub fail : {A : Type 0} → Failure → H S A
  fail e w = (err e, w)

  -- The result of an action, errors included, as a value.
  unfoldable pub attempt : {A : Type 0} → H S A → H S (Result A)
  attempt m w = let (r, w') = m w in (ok r, w')

  unfoldable pub lift : {A : Type 0} → Result A → H S A
  lift r w = (r, w)

  unfoldable pub notify : Bool → Notification → H S (Unit {0})
  notify enabled n w = (ok tt, if enabled then record w { events = w.events ++ (n ∷ []) } else w)

  unfoldable pub modify_metrics : (Metrics → Metrics) → H S (Unit {0})
  modify_metrics f w = (ok tt, record w { metrics = f w.metrics })

abbrev uint64 : ℕ → ℕ
uint64 n = n % 2 ^ 64

-- Only a method of the map is counted.
unfoldable pub inc_requests_total : Bytes → Metrics → Metrics
inc_requests_total method m = elim (lookup method m.requests_total) [
  | none ↦ m
  | some n ↦ record m { requests_total = insert method (uint64 (n + 1)) m.requests_total }
]

-- `retrievePointerFor` and the increment: a new entry starts at 0.
unfoldable pub inc_entry : Bytes → ℕ → List ((Bytes × ℕ) × ℕ) → List ((Bytes × ℕ) × ℕ)
inc_entry code status [] = ((code, status), 1) ∷ []
inc_entry code status (((c, s), n) ∷ entries) =
    if text_eq c code && s == status
    then ((c, s), uint64 (n + 1)) ∷ entries
    else ((c, s), n) ∷ inc_entry code status entries

unfoldable pub inc_errors_total : Error → Metrics → Metrics
inc_errors_total e m = record m {
  errors_total = inc_entry e.error_code e.http_response.status_code m.errors_total;
}

-- `uint64(bytesWritten)` of an `int64`
unfoldable pub inc_bytes_received : ℤ → Metrics → Metrics
inc_bytes_received (pos n) m = record m { bytes_received = uint64 (m.bytes_received + n) }
inc_bytes_received (negsuc n) m = record m {
  bytes_received = uint64 (m.bytes_received + (2 ^ 64 - (n + 1) % 2 ^ 64));
}

unfoldable pub inc_uploads_finished : Metrics → Metrics
inc_uploads_finished m = record m { uploads_finished = uint64 (m.uploads_finished + 1) }

unfoldable pub inc_uploads_created : Metrics → Metrics
inc_uploads_created m = record m { uploads_created = uint64 (m.uploads_created + 1) }

unfoldable pub inc_uploads_terminated : Metrics → Metrics
inc_uploads_terminated m = record m { uploads_terminated = uint64 (m.uploads_terminated + 1) }
