-- ===== src/Text/Errors.antt =====
-- `strerror` of stdlib/cpp/cstring.cpp, with the codes that stdlib/include/cerrno gives to the names of
-- `errc` in stdlib/include/system_error.
use stable_genius.Common.{ℕ, List, [], ◌∷◌, ◌==◌, if◌then◌else◌}
use Prim.Native.String.{String}

-- The cases of the `switch`, in their order
abbrev pub messages : List (ℕ × String)
messages =
    (1, "Operation not permitted")
    ∷ (2, "No such file or directory")
    ∷ (3, "No such process")
    ∷ (4, "Interrupted system call")
    ∷ (5, "Input/output error")
    ∷ (6, "No such device or address")
    ∷ (7, "Argument list too long")
    ∷ (8, "Exec format error")
    ∷ (9, "Bad file descriptor")
    ∷ (10, "No child processes")
    ∷ (11, "Resource temporarily unavailable")
    ∷ (12, "Cannot allocate memory")
    ∷ (13, "Permission denied")
    ∷ (14, "Bad address")
    ∷ (16, "Device or resource busy")
    ∷ (17, "File exists")
    ∷ (18, "Invalid cross-device link")
    ∷ (19, "No such device")
    ∷ (20, "Not a directory")
    ∷ (21, "Is a directory")
    ∷ (22, "Invalid argument")
    ∷ (23, "Too many open files")
    ∷ (24, "Too many open files in system")
    ∷ (25, "Inappropriate ioctl for device")
    ∷ (26, "Text file busy")
    ∷ (27, "File too large")
    ∷ (28, "No space left on device")
    ∷ (29, "Illegal seek")
    ∷ (30, "Read-only file system")
    ∷ (31, "Too many links")
    ∷ (32, "Broken pipe")
    ∷ (33, "Numerical argument out of domain")
    ∷ (34, "Numerical result out of range")
    ∷ (35, "Operation would block")
    ∷ (36, "File name too long")
    ∷ (37, "No locks available")
    ∷ (38, "Function not implemented")
    ∷ (39, "Directory not empty")
    ∷ (40, "Too many levels of symbolic links")
    ∷ (42, "No message of desired type")
    ∷ (43, "Identifier removed")
    ∷ (60, "Device not a stream")
    ∷ (61, "No data available")
    ∷ (62, "Timer expired")
    ∷ (63, "Out of streams resources")
    ∷ (67, "Link has been severed")
    ∷ (71, "Protocol error")
    ∷ (74, "Bad message")
    ∷ (75, "Value too large for defined data type")
    ∷ (84, "Invalid or incomplete multibyte or wide character")
    ∷ (88, "Socket operation on non-socket")
    ∷ (89, "Destination address required")
    ∷ (90, "Message too long")
    ∷ (91, "Protocol wrong type for socket")
    ∷ (92, "Protocol not available")
    ∷ (93, "Protocol not supported")
    ∷ (95, "Operation not supported")
    ∷ (97, "Address family not supported by protocol")
    ∷ (98, "Address already in use")
    ∷ (99, "Cannot assign requested address")
    ∷ (100, "Network is down")
    ∷ (101, "Network is unreachable")
    ∷ (102, "Network dropped connection on reset")
    ∷ (103, "Software caused connection abort")
    ∷ (104, "Connection reset by peer")
    ∷ (105, "No buffer space available")
    ∷ (106, "Transport endpoint is already connected")
    ∷ (107, "Transport endpoint is not connected")
    ∷ (110, "Connection timed out")
    ∷ (111, "Connection refused")
    ∷ (113, "No route to host")
    ∷ (114, "Operation already in progress")
    ∷ (115, "Operation now in progress")
    ∷ (125, "Operation canceled")
    ∷ (130, "Owner died")
    ∷ (131, "State not recoverable")
    ∷ []

unfoldable pub message : ℕ → List (ℕ × String) → String
message errnum [] = "Unknown error"
message errnum ((code, text) ∷ rest) = if errnum == code then text else message errnum rest

unfoldable pub strerror : ℕ → String
unfolding message
strerror errnum = if errnum == 0 then "Success" else message errnum messages
