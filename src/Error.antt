-- ===== src/Error.antt =====
-- The error model, rust/crates/rc-launcher-core/src/error.rs: the variants of `RcError`, their
-- severity, and what the retry and cache layers ask of them. A payload text stands for its
-- developer-facing message; the texts that the code builds with `format!` are kept as their fixed
-- part, since nothing branches on them.
use rc_launcher.Base.{ℕ, String, Bool, true, false, Option, none, Result}

-- `ErrorSeverity`
pub data Severity : Type 0 where
  transient recoverable fatal : Severity

-- The kinds of `std::io::ErrorKind` that the code names; `other_kind` is any kind it does not.
pub data IoKind : Type 0 where
  not_found permission_denied already_exists is_a_directory unsupported : IoKind
  timed_out connection_refused connection_reset connection_aborted broken_pipe interrupted : IoKind
  other_kind : IoKind

pub data RcError : Type 0 where
  io : IoKind → RcError
  json jni network auth download launch modification missing_file : String → RcError
  unsupported_platform offline timeout connection cache panic other : String → RcError
  checksum_mismatch : String → String → String → RcError
  range_unsupported : String → RcError
  -- `retry_after`, in milliseconds
  rate_limited : Option ℕ → RcError

abbrev pub RcResult : Type 0 → Type 0
RcResult A = Result A RcError

unfoldable pub io_severity : IoKind → Severity
io_severity timed_out = Severity.transient
io_severity connection_refused = Severity.transient
io_severity connection_reset = Severity.transient
io_severity connection_aborted = Severity.transient
io_severity broken_pipe = Severity.transient
io_severity interrupted = Severity.transient
io_severity _ = Severity.recoverable

unfoldable pub severity : RcError → Severity
unfolding io_severity
severity (io k) = io_severity k
severity (json _) = Severity.recoverable
severity (jni _) = Severity.fatal
severity (network _) = Severity.transient
severity (auth _) = Severity.recoverable
severity (download _) = Severity.recoverable
severity (checksum_mismatch _ _ _) = Severity.fatal
severity (range_unsupported _) = Severity.recoverable
severity (launch _) = Severity.fatal
severity (modification _) = Severity.recoverable
severity (missing_file _) = Severity.recoverable
severity (unsupported_platform _) = Severity.fatal
severity (offline _) = Severity.recoverable
severity (timeout _) = Severity.transient
severity (connection _) = Severity.transient
severity (rate_limited _) = Severity.transient
severity (cache _) = Severity.recoverable
severity (panic _) = Severity.fatal
severity (other _) = Severity.recoverable

unfoldable pub is_transient : RcError → Bool
unfolding severity
is_transient e = elim (severity e) [ Severity.transient ↦ true | _ ↦ false ]

unfoldable pub is_retryable : RcError → Bool
unfolding is_transient
is_retryable e = is_transient e

unfoldable pub suggested_backoff : RcError → Option ℕ
suggested_backoff (rate_limited retry_after) = retry_after
suggested_backoff _ = none
