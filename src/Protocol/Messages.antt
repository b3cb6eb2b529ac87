-- ===== src/Protocol/Messages.antt =====
-- The message builders (src/etst/protocol.py, `msg_ready` to `msg_warn`).
pub mod Checked
pub mod Parsed
use embedded_test_runner.Base.{Option, none, some, [], ◌∷◌, ◌++◌, Text, codes}
use embedded_test_runner.Base.Int.{ℤ, pos, ◌-ℤ◌}
use embedded_test_runner.Base.Decimal.{str_int, str_signed}
use embedded_test_runner.Protocol.Line.{prefix, format_crc}

unfoldable pub msg_ready : Text
msg_ready = format_crc (prefix ++ codes "READY")

unfoldable pub msg_done : Text
msg_done = format_crc (prefix ++ codes "DONE")

-- `run` defaults to what is left of `total`
abbrev pub run_count : ℤ → ℤ → Option ℤ → ℤ
run_count total skip none = total -ℤ skip
run_count total skip (some run) = run

unfoldable pub msg_counts : ℤ → ℤ → Option ℤ → Text
msg_counts total skip run = format_crc (
    prefix
    ++ (codes "COUNTS total="
        ++ (str_int total
            ++ (codes " skip="
                ++ (str_int skip ++ (codes " run=" ++ str_int (run_count total skip run)))))))

abbrev pub timeout_part : Option ℤ → Text
timeout_part none = []
timeout_part (some timeout) = codes " timeout=" ++ str_int timeout

unfoldable pub msg_case_start : Text → Text → Option ℤ → Text
msg_case_start suite name timeout = format_crc (
    prefix
    ++ (codes "CASE:START suite=\""
        ++ (suite ++ (codes "\" name=\"" ++ (name ++ (codes "\"" ++ timeout_part timeout))))))

unfoldable pub msg_sleep : ℤ → Text
msg_sleep ms = format_crc (prefix ++ (codes "SLEEP ms=" ++ str_int ms))

unfoldable pub msg_busy : ℤ → Text
msg_busy ms = format_crc (prefix ++ (codes "BUSY ms=" ++ str_int ms))

unfoldable pub msg_restart : Text
msg_restart = format_crc (prefix ++ codes "RESTART")

unfoldable pub msg_disconnect : ℤ → Text
msg_disconnect ms = format_crc (prefix ++ (codes "DISCONNECT ms=" ++ str_int ms))

unfoldable pub msg_reconnect : Text
msg_reconnect = format_crc (prefix ++ codes "RECONNECT")

abbrev pub largest_part : Option ℤ → Text
largest_part none = []
largest_part (some largest) = codes " largest=" ++ str_int largest

unfoldable pub msg_mem_before : ℤ → ℤ → Option ℤ → Text
msg_mem_before free min_free largest = format_crc (
    prefix
    ++ (codes "MEM:BEFORE free="
        ++ (str_int free ++ (codes " min=" ++ (str_int min_free ++ largest_part largest)))))

unfoldable pub msg_mem_after : ℤ → ℤ → ℤ → Option ℤ → Text
msg_mem_after free delta min_free largest = format_crc (
    prefix
    ++ (codes "MEM:AFTER free="
        ++ (str_int free
            ++ (codes " delta="
                ++ (str_signed delta
                    ++ (codes " min=" ++ (str_int min_free ++ largest_part largest)))))))

unfoldable pub msg_mem_warn : ℤ → Text
msg_mem_warn leaked = format_crc (prefix ++ (codes "MEM:WARN leaked=" ++ str_int leaked))

unfoldable pub msg_args : Text → Text
msg_args args = format_crc (prefix ++ (codes "ARGS " ++ args))

unfoldable pub msg_error : Text → Text → Text
msg_error code message =
    format_crc (prefix ++ (codes "ERROR " ++ (code ++ (codes " \"" ++ (message ++ codes "\"")))))

unfoldable pub msg_warn : Text → Text
msg_warn message = format_crc (prefix ++ (codes "WARN " ++ message))
