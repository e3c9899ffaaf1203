-- ===== src/Http/Errors.antt =====
-- The errors of pkg/handler/unrouted_handler.go, under their Go names.
use tusd.Base.{codes}
use tusd.Http.{Error, new_error}

unfoldable pub err_unsupported_version : Error
unfolding new_error codes
err_unsupported_version =
    new_error (codes "ERR_UNSUPPORTED_VERSION")
      (codes "missing, invalid or unsupported Tus-Resumable header") 412

unfoldable pub err_max_size_exceeded : Error
unfolding new_error codes
err_max_size_exceeded =
    new_error (codes "ERR_MAX_SIZE_EXCEEDED") (codes "maximum size exceeded") 413

unfoldable pub err_invalid_content_type : Error
unfolding new_error codes
err_invalid_content_type =
    new_error (codes "ERR_INVALID_CONTENT_TYPE") (codes "missing or invalid Content-Type header")
      400

unfoldable pub err_invalid_upload_length : Error
unfolding new_error codes
err_invalid_upload_length =
    new_error (codes "ERR_INVALID_UPLOAD_LENGTH") (codes "missing or invalid Upload-Length header")
      400

unfoldable pub err_invalid_offset : Error
unfolding new_error codes
err_invalid_offset =
    new_error (codes "ERR_INVALID_OFFSET") (codes "missing or invalid Upload-Offset header") 400

unfoldable pub err_not_found : Error
unfolding new_error codes
err_not_found = new_error (codes "ERR_UPLOAD_NOT_FOUND") (codes "upload not found") 404

unfoldable pub err_file_locked : Error
unfolding new_error codes
err_file_locked = new_error (codes "ERR_UPLOAD_LOCKED") (codes "file currently locked") 423

unfoldable pub err_lock_timeout : Error
unfolding new_error codes
err_lock_timeout =
    new_error (codes "ERR_LOCK_TIMEOUT") (codes "failed to acquire lock before timeout") 500

unfoldable pub err_mismatch_offset : Error
unfolding new_error codes
err_mismatch_offset = new_error (codes "ERR_MISMATCHED_OFFSET") (codes "mismatched offset") 409

unfoldable pub err_size_exceeded : Error
unfolding new_error codes
err_size_exceeded =
    new_error (codes "ERR_UPLOAD_SIZE_EXCEEDED") (codes "upload's size exceeded") 413

unfoldable pub err_not_implemented : Error
unfolding new_error codes
err_not_implemented = new_error (codes "ERR_NOT_IMPLEMENTED") (codes "feature not implemented") 501

unfoldable pub err_upload_not_finished : Error
unfolding new_error codes
err_upload_not_finished =
    new_error (codes "ERR_UPLOAD_NOT_FINISHED") (codes "one of the partial uploads is not finished")
      400

unfoldable pub err_invalid_concat : Error
unfolding new_error codes
err_invalid_concat =
    new_error (codes "ERR_INVALID_CONCAT") (codes "invalid Upload-Concat header") 400

unfoldable pub err_concatenation_unsupported : Error
unfolding new_error codes
err_concatenation_unsupported =
    new_error (codes "ERR_CONCATENATION_UNSUPPORTED")
      (codes "Upload-Concat header is not supported by server") 400

unfoldable pub err_modify_final : Error
unfolding new_error codes
err_modify_final =
    new_error (codes "ERR_MODIFY_FINAL") (codes "modifying a final upload is not allowed") 403

unfoldable pub err_upload_length_and_upload_defer_length : Error
unfolding new_error codes
err_upload_length_and_upload_defer_length =
    new_error (codes "ERR_AMBIGUOUS_UPLOAD_LENGTH")
      (codes "provided both Upload-Length and Upload-Defer-Length") 400

unfoldable pub err_invalid_upload_defer_length : Error
unfolding new_error codes
err_invalid_upload_defer_length =
    new_error (codes "ERR_INVALID_UPLOAD_LENGTH_DEFER") (codes "invalid Upload-Defer-Length header")
      400

unfoldable pub err_upload_stopped_by_server : Error
unfolding new_error codes
err_upload_stopped_by_server =
    new_error (codes "ERR_UPLOAD_STOPPED") (codes "upload has been stopped by server") 400

unfoldable pub err_upload_rejected_by_server : Error
unfolding new_error codes
err_upload_rejected_by_server =
    new_error (codes "ERR_UPLOAD_REJECTED") (codes "upload creation has been rejected by server")
      400

unfoldable pub err_upload_termination_rejected : Error
unfolding new_error codes
err_upload_termination_rejected =
    new_error (codes "ERR_UPLOAD_TERMINATION_REJECTED")
      (codes "upload termination has been rejected by server") 400

unfoldable pub err_upload_interrupted : Error
unfolding new_error codes
err_upload_interrupted =
    new_error (codes "ERR_UPLOAD_INTERRUPTED")
      (codes "upload has been interrupted by another request for this upload resource") 400

unfoldable pub err_server_shutdown : Error
unfolding new_error codes
err_server_shutdown =
    new_error (codes "ERR_SERVER_SHUTDOWN")
      (codes "request has been interrupted because the server is shutting down") 503

unfoldable pub err_origin_not_allowed : Error
unfolding new_error codes
err_origin_not_allowed =
    new_error (codes "ERR_ORIGIN_NOT_ALLOWED") (codes "request origin is not allowed") 403

unfoldable pub err_unexpected_eof : Error
unfolding new_error codes
err_unexpected_eof =
    new_error (codes "ERR_UNEXPECTED_EOF") (codes "server expected to receive more bytes") 400

unfoldable pub err_read_timeout : Error
unfolding new_error codes
err_read_timeout =
    new_error (codes "ERR_READ_TIMEOUT") (codes "timeout while reading request body") 500

unfoldable pub err_connection_reset : Error
unfolding new_error codes
err_connection_reset =
    new_error (codes "ERR_CONNECTION_RESET") (codes "TCP connection reset by peer") 500
