-- ===== src/System.antt =====
-- PATCH over the file store: from the request to the data file.
mod Files
use Files.{Holds, Holds-finish_chunk, Holds-complete_deferred}
use tusd.Base.{
  ◌∷◌, [], ℕ, ◌+◌, ◌≤◌, ◌<◌, Bool, true, false, not, List, ◌++◌, Option, none, some, ◌≡◌, refl, sym,
  ap, subst, ◌∙◌, Bytes, codes, arith, length, length-append, is_empty,
}
use tusd.Base.Int.{add_pos, ◌+ℤ◌, ℤ, pos, pos_part, half_range, eqb_ℤ, eqb_ℤ_iff}
use tusd.Base.Dict.{lookup, insert}
use tusd.Http.{ok, HttpResponse, HttpHeader, Failure, detailed, failure_is, Result}
use tusd.Http.Errors.{err_modify_final, err_mismatch_offset}
use tusd.BodyReader.{BodyEvent, drain, new_body_reader, delivered, has_error, flatten}
use tusd.FileStore.Calm.{write_chunk-calm}
use tusd.BodyReader.Laws.{length-drain, sent, delivered-sent}
use tusd.DataStore.{FileInfo, StoreComposer, HookEvent}
use tusd.FileStore.{Platform, FileUpload, stored_bin_path, wrote, get_info, finish_upload}
use tusd.FileStore.Os.{Fs, append_to}
use tusd.FileStore.Calls.{lookup-append_to_self}
use tusd.FileStore.Stored.{calm, IsStored, handle_of, get_upload-IsStored}
use tusd.FileStore.Composer.{file_composer}
use tusd.Handler.Request.{Request, get_header}
use tusd.Handler.Config.{Config}
use tusd.Handler.Monad.{
  World, call, ◌>>=◌, ◌>>◌, pure, Notification, notify, Metrics, modify_metrics,
}
use tusd.Handler.Chunk.{
  call_pre_finish, emit_finish_events, finish_upload_if_complete, finish_chunk, write_body,
  write_given_body, write_chunk, max_body_size, to_limit, exceeds_size, terminate_if_stopped,
  store_chunk, first_error, is_complete,
}
use tusd.Handler.Patch.{
  no_content, complete_deferred, declare_from_header, append_chunk, patch_upload,
}
use tusd.Handler.Chunk.Offset.{finish_chunk-ok, if_and-ok}
use tusd.Strconv.{format_int}
use tusd.Handler.Chunk.Limit.{IsOpen, delivered-within_size}
use tusd.Handler.Keeps.{
  require-passed, Keeps-if_and, Keeps, keeps_rules, Keeps-and_then, Keeps-pure,
}

-- An upload with its data on disk, and a request for it that is to be written.
module _ (os : Platform) (path : Bytes) (serve_file : Bytes → HttpHeader → Fs → HttpResponse)
    (config : Config) (r : Request) (id : Bytes) (info : FileInfo) (content : Bytes) (size : ℕ)
    (events : List BodyEvent) where
  abbrev pub S : StoreComposer
  S = file_composer os path serve_file

  -- The upload as `GetUpload` gives it, and the limit for the body.
  abbrev pub opened : FileUpload
  opened = handle_of os path id info content

  abbrev pub limit : ℕ
  limit = to_limit (max_body_size config.max_size opened.info r.content_length)

  abbrev pub parts : List Bytes
  parts = (drain events false (new_body_reader limit)).0

  abbrev pub at : World S → Fs → List Bytes → World S
  at w fs locks = record w { store = record { fs = calm fs; locks = locks } }

  module _ (w : World S) (fs : Fs) (locks : List Bytes)
      (stored : IsStored os path id info content fs)
      (whole : has_error events (length events) limit ≡ none) where
    grown :
        lookup opened.bin_path (append_to opened.bin_path (flatten parts) fs.files)
        ≡ some (content ++ sent events)
    unfolding delivered
    grown =
        lookup-append_to_self opened.bin_path (flatten parts) fs.files stored.bin_file
        ∙ ap (λ s. some (content ++ s)) (delivered-sent events limit whole).0

    Holds-write_body :
        (resp : HttpResponse)
        → Holds os path serve_file info
            (content ++ sent events)
            (write_body {S = S} config r resp opened opened.info events (at w fs locks)).1
    unfolding write_body ◌>>=◌ ◌>>◌ store_chunk terminate_if_stopped failure_is pure wrote
    Holds-write_body resp =
        rw
          (
            write_chunk-calm opened opened.info.offset parts fs stored.bin_file,
            length-drain events false (new_body_reader limit),
            whole,
          )
          ((Holds-finish_chunk os path serve_file info config r (content ++ sent events) resp _ _ _
              _).at
            _ grown)

    Holds-write_chunk :
        (resp : HttpResponse)
        → exceeds_size opened.info r.content_length ≡ false
        → r.body ≡ some events
        → Holds os path serve_file info
            (content ++ sent events)
            (write_chunk {S = S} config r resp opened opened.info (at w fs locks)).1
    unfolding write_chunk write_given_body
    Holds-write_chunk resp fits body = rw (fits) (
        subst
          (λ b.
            Holds os path serve_file info (content ++ sent events)
              (write_given_body {S = S} config r resp opened opened.info b (at w fs locks)).1)
          (sym body) (Holds-write_body resp))

    Holds-append_chunk :
        info.size_is_deferred ≡ false
        → is_empty (get_header r (codes "Upload-Length")) ≡ true
        → exceeds_size opened.info r.content_length ≡ false
        → r.body ≡ some events
        → Holds os path serve_file info
            (content ++ sent events)
            (append_chunk {S = S} config r opened opened.info (at w fs locks)).1
    unfolding append_chunk declare_from_header ◌>>=◌ pure
    Holds-append_chunk known no_length fits body = rw (no_length) (
        Keeps-and_then
          (write_chunk {S = S} config r no_content opened opened.info (at w fs locks)).0
          (write_chunk {S = S} config r no_content opened opened.info (at w fs locks)).1 _
          (λ a.
            Holds-complete_deferred os path serve_file info config r (content ++ sent events) a.0
              a.1 opened.info known)
          (Holds-write_chunk no_content fits body))

    incomplete :
        IsOpen opened.info (length content) size
        → length content < size
        → is_complete opened.info ≡ false
    unfolding is_complete
    incomplete o less = rw (o.known, o.of) (grind arith)

    -- While no call of the file system fails, a PATCH without an Upload-Length header, at the offset of an upload
    -- of known size that is stored, neither final nor complete, whose Content-Length passes the check against the
    -- size and makes an int64 with the offset (an unknown length counts as 0), and whose body arrives whole and
    -- within the limit, leaves a data file with the old data and behind it exactly what the client sent, and no
    -- more than the size of the upload. Whether a hook fails at the end does not matter.
    pub patch_upload-sent :
        IsOpen opened.info (length content) size
        → length content < size
        → info.is_final ≡ false
        → length content + pos_part r.content_length < half_range
        → exceeds_size opened.info r.content_length ≡ false
        → is_empty (get_header r (codes "Upload-Length")) ≡ true
        → r.body ≡ some events
        → Holds os path serve_file info
            (content ++ sent events)
            (patch_upload {S = S} config r id (pos (length content)) (at w fs locks)).1
          × (length (content ++ sent events) ≤ size)
    unfolding patch_upload ◌>>=◌ ◌>>◌ call pure get_info
    patch_upload-sent o less open_upload small fits no_length body = (
      rw
          (
            get_upload-IsStored os path id info content fs stored,
            require-passed {T = S} (not info.is_final) (detailed err_modify_final)
                (ap not open_upload),
            require-passed {T = S} (eqb_ℤ (pos (length content)) (pos (length content)))
                (detailed err_mismatch_offset)
                ((eqb_ℤ_iff (pos (length content)) (pos (length content))).1 refl),
            incomplete o less,
          )
          (Holds-append_chunk o.known no_length fits body),
      rw (length-append content (sent events), ← (delivered-sent events limit whole).0)
          (delivered-within_size config.max_size opened.info (length content) size r.content_length
            events o small fits),
    )

    module _ (no_hook : config.pre_finish_response_callback ≡ none) where
      -- The response with the new offset.
      answer : HttpResponse
      answer = record no_content {
        header =
            insert (codes "Upload-Offset")
              (format_int (pos (length content) +ℤ pos (length (flatten parts)))) no_content.header;
      }

      written : FileUpload
      unfolding wrote
      written = (wrote opened (length (flatten parts)) none (length parts)).upload

      write_body-ok :
          (write_body {S = S} config r no_content opened opened.info events (at w fs locks)).0
          ≡ ok (answer, written)
      unfolding write_body ◌>>=◌ ◌>>◌ store_chunk terminate_if_stopped failure_is pure wrote
          first_error answer written
      write_body-ok =
          rw
            (
              write_chunk-calm opened opened.info.offset parts fs stored.bin_file,
              length-drain events false (new_body_reader limit),
              whole,
            )
            (finish_chunk-ok {S = S} config r (λ u s. unfold finish_upload in refl) no_hook
              no_content _ _ _ _)

      write_chunk-ok :
          exceeds_size opened.info r.content_length ≡ false
          → r.body ≡ some events
          → (write_chunk {S = S} config r no_content opened opened.info (at w fs locks)).0
            ≡ ok (answer, written)
      unfolding write_chunk write_given_body
      write_chunk-ok fits body = rw (fits) (
          subst
            (λ b.
              (write_given_body {S = S} config r no_content opened opened.info b (at w fs locks)).0
              ≡ ok (answer, written))
            (sym body) write_body-ok)

      append_chunk-ok :
          info.size_is_deferred ≡ false
          → is_empty (get_header r (codes "Upload-Length")) ≡ true
          → exceeds_size opened.info r.content_length ≡ false
          → r.body ≡ some events
          → (append_chunk {S = S} config r opened opened.info (at w fs locks)).0 ≡ ok answer
      unfolding append_chunk declare_from_header ◌>>=◌ pure complete_deferred
      append_chunk-ok known no_length fits body =
          rw (no_length, write_chunk-ok fits body)
            (if_and-ok {S = S} _ info.size_is_deferred _ answer _ known)

      new_offset :
          length content + length (flatten parts) < half_range
          → pos (length content) +ℤ pos (length (flatten parts))
            ≡ pos (length (content ++ sent events))
      unfolding delivered
      new_offset small =
          add_pos (length content) (length (flatten parts)) small
          ∙ ap pos (
              ap (λ s. length content + length s) (delivered-sent events limit whole).0
              ∙ sym (length-append content (sent events)))

      answer_offset :
          length content + length (flatten parts) < half_range
          → answer ≡ record no_content {
            header =
                (codes "Upload-Offset", format_int (pos (length (content ++ sent events)))) ∷ [];
          }
      unfolding answer insert
      answer_offset small =
          ap (λ n. record no_content { header = (codes "Upload-Offset", format_int n) ∷ [] })
            (new_offset small)

      parts_small :
          IsOpen opened.info (length content) size
          → length content + pos_part r.content_length < half_range
          → exceeds_size opened.info r.content_length ≡ false
          → length content + length (flatten parts) < half_range
      unfolding delivered
      parts_small o small fits = omega (
        arith,
        o.in_range,
        delivered-within_size config.max_size opened.info (length content) size r.content_length
            events o small fits,
      )

      -- While no call of the file system fails, and without a hook at the end, a PATCH without an Upload-Length
      -- header, at the offset of an upload of known size that is stored, neither final nor complete, whose
      -- Content-Length passes the check against the size and makes an int64 with the offset (an unknown length
      -- counts as 0), and whose body arrives whole and within the limit, succeeds with status 204, and its header
      -- `Upload-Offset` is the size of the data file.
      pub patch_upload-answer :
          IsOpen opened.info (length content) size
          → length content < size
          → info.is_final ≡ false
          → length content + pos_part r.content_length < half_range
          → exceeds_size opened.info r.content_length ≡ false
          → is_empty (get_header r (codes "Upload-Length")) ≡ true
          → r.body ≡ some events
          → (patch_upload {S = S} config r id (pos (length content)) (at w fs locks)).0
            ≡ ok (record no_content {
              header =
                  (codes "Upload-Offset", format_int (pos (length (content ++ sent events)))) ∷ [];
            })
      unfolding patch_upload ◌>>=◌ ◌>>◌ call pure get_info
      patch_upload-answer o less open_upload small fits no_length body =
          rw
            (
              get_upload-IsStored os path id info content fs stored,
              require-passed {T = S} (not info.is_final) (detailed err_modify_final)
                  (ap not open_upload),
              require-passed {T = S} (eqb_ℤ (pos (length content)) (pos (length content)))
                  (detailed err_mismatch_offset)
                  ((eqb_ℤ_iff (pos (length content)) (pos (length content))).1 refl),
              incomplete o less,
            )
            (append_chunk-ok o.known no_length fits body
              ∙ ap ok (answer_offset (parts_small o small fits)))
