-- ===== src/ErrorCodes.antt =====
-- ErrorCodes.h and ErrorCodes.cpp: the error codes in their order, which is also their priority.
use wdt.Common.{ℕ, ◌<◌, max, ◌≡◌, refl, Option, none, some, List, [], ◌∷◌}
use wdt.Common.{arith, get_elem?, ltb, if◌then◌else◌, ◌⊎◌}

-- A byte may be cast to a value that the enumeration does not name.
pub data ErrorCode : Type 0 where
  ok_code error abort conn_error conn_error_retryable socket_read_error socket_write_error
        byte_source_read_error file_write_error memory_allocation_error protocol_error
        version_mismatch id_mismatch checksum_mismatch resource_not_found aborted_by_application
        version_incompatible not_found quota_exceeded fewer_ports uri_parse_error
        inconsistent_directory invalid_log invalid_checkpoint no_progress transfer_log_acquire_error
        wdt_timeout unexpected_cmd_error encryption_error already_exists global_checkpoint_abort
        invalid_request sender_start_timed_out auth_error :
      ErrorCode
  unnamed : ℕ → ErrorCode

-- The list ERRORS.
abbrev pub errors : List ErrorCode
errors =
    ok_code ∷ error ∷ abort ∷ conn_error ∷ conn_error_retryable ∷ socket_read_error
    ∷ socket_write_error ∷ byte_source_read_error ∷ file_write_error ∷ memory_allocation_error
    ∷ protocol_error ∷ version_mismatch ∷ id_mismatch ∷ checksum_mismatch ∷ resource_not_found
    ∷ aborted_by_application ∷ version_incompatible ∷ not_found ∷ quota_exceeded ∷ fewer_ports
    ∷ uri_parse_error ∷ inconsistent_directory ∷ invalid_log ∷ invalid_checkpoint ∷ no_progress
    ∷ transfer_log_acquire_error ∷ wdt_timeout ∷ unexpected_cmd_error ∷ encryption_error
    ∷ already_exists ∷ global_checkpoint_abort ∷ invalid_request ∷ sender_start_timed_out
    ∷ auth_error ∷ []

unfoldable pub code : ErrorCode → ℕ
code ok_code = 0
code error = 1
code abort = 2
code conn_error = 3
code conn_error_retryable = 4
code socket_read_error = 5
code socket_write_error = 6
code byte_source_read_error = 7
code file_write_error = 8
code memory_allocation_error = 9
code protocol_error = 10
code version_mismatch = 11
code id_mismatch = 12
code checksum_mismatch = 13
code resource_not_found = 14
code aborted_by_application = 15
code version_incompatible = 16
code not_found = 17
code quota_exceeded = 18
code fewer_ports = 19
code uri_parse_error = 20
code inconsistent_directory = 21
code invalid_log = 22
code invalid_checkpoint = 23
code no_progress = 24
code transfer_log_acquire_error = 25
code wdt_timeout = 26
code unexpected_cmd_error = 27
code encryption_error = 28
code already_exists = 29
code global_checkpoint_abort = 30
code invalid_request = 31
code sender_start_timed_out = 32
code auth_error = 33
code (unnamed n) = n

abbrev or_unnamed : ℕ → Option ErrorCode → ErrorCode
or_unnamed n none = unnamed n
or_unnamed n (some e) = e

-- `(ErrorCode)n`
pub to_error_code : ℕ → ErrorCode
to_error_code n = or_unnamed n (get_elem? errors n)

-- `std::max` of the two codes; on equal codes the first.
pub get_more_interesting_error : ErrorCode → ErrorCode → ErrorCode
get_more_interesting_error err1 err2 = if ltb (code err1) (code err2) then err2 else err1

abbrev pub IsNamedError : ErrorCode → Type 0
IsNamedError (unnamed n) = ⊥
IsNamedError _ = Unit

pub to_error_code-code : (e : ErrorCode) → IsNamedError e → to_error_code (code e) ≡ e
unfolding to_error_code code
to_error_code-code (unnamed n) h = absurd h
to_error_code-code ok_code h = refl
to_error_code-code _ h = refl

pub code-lt : (e : ErrorCode) → IsNamedError e → code e < 34
unfolding code
code-lt (unnamed n) h = absurd h
code-lt ok_code h = omega arith
code-lt _ h = omega arith

-- The combined error is one of the two, the first on equal codes, and has the larger code of the
-- two.
pub get_more_interesting_error_lem :
    (err1 err2 : ErrorCode)
    → let e = get_more_interesting_error err1 err2 in
      ((e ≡ err1) ⊎ (e ≡ err2)) × (code e ≡ max (code err1) (code err2))
unfolding get_more_interesting_error
get_more_interesting_error_lem err1 err2 = ground arith
