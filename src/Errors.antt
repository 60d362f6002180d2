-- ===== src/Errors.antt =====
-- The descriptions of error codes: `getErrorDescription` of errorcodes.cpp, with the codes and
-- texts of errorcodes.h. A code is given by its negative, since ERR_OK is 0 and all others are
-- negative.
pub mod Distinct
mod Runs
use pkt.Common.{ℕ, List, [], ◌∷◌, ◌==◌, if◌then◌else◌}
use Prim.Native.String.{String}

abbrev err_ok : ℕ
err_ok = 0

-- the cases behind the first one, in the order of the source
abbrev pub descriptions : List (ℕ × String)
descriptions =
    (1, "Invalid command line options or help requested.")
    ∷ (2, "Error parse command line options, possible cause is insufficient memory.")
    ∷ (10, "Can not begin LMDB transaction ")
    ∷ (11, "Can not commit LMDB transaction ")
    ∷ (12, "Can not open database file ")
    ∷ (13, "Can not open database file ")
    ∷ (14, "Can not put LMDB ")
    ∷ (15, "Can not get LMDB ")
    ∷ (16, "Can create nanomsg socket ")
    ∷ (17, "Can not connect nanomsg socket to the IPC url ")
    ∷ (18, "Can not bind nanomsg socket to the IPC url ")
    ∷ (19, "Can not subscribe nanomsg socket to the IPC url ")
    ∷ (20, "Can not shutdown nanomsg socket ")
    ∷ (21, "Receive nanomsg error ")
    ∷ (22, "Send nanomsg socket error ")
    ∷ (23, "nanomsg set socket option error: ")
    ∷ (24, "nanomsg free message error: ")
    ∷ (25, "Error parse packet ")
    ∷ (26, "Can not stop")
    ∷ (27, "No config provided")
    ∷ (28, "Can not load proto file(s) from ")
    ∷ (29, "Can not allocate buffer size ")
    ∷ (30, "Error decode message ")
    ∷ (31, "Error socket send ")
    ∷ (32, "Protobuf message not found ")
    ∷ (33, "No message descriptor")
    ∷ (34, "No field descriptor")
    ∷ (35, "Decompose message fatal error")
    ∷ (36, "No reflection")
    ∷ (37, "No callback")
    ∷ (38, "Not implemented")
    ∷ (39, "No database connection. Check credentials.")
    ∷ (40, "SQL command error ")
    ∷ (41, "Address resolve error: ")
    ∷ (42, "Socket create error: ")
    ∷ (43, "Socket set options error")
    ∷ (44, "Socket bind error ")
    ∷ (45, "Socket connect error ")
    ∷ (46, "Socket listen error ")
    ∷ (47, "Socket read error ")
    ∷ (48, "Socket write error ")
    ∷ (49, "nanomsg accept socket error: ")
    ∷ (50, "Error parse packet ")
    ∷ (51, "Packet size is too small, field ")
    ∷ (52, "Token bearer error ")
    ∷ (53, "Google Sheet get range error ")
    ∷ (54, "Google Sheet JSON file not found or invalid ")
    ∷ (55, "MQTT connection lost, cause: ")
    ∷ (56, "Failed to connect to MQTT broker: ")
    ∷ (57, "Can not fork ")
    ∷ (58, "Can not execute ")
    ∷ (59, "Load config file error ")
    ∷ (62, "Help requested ")
    ∷ (63, "Error write data to the Google sheet ")
    ∷ (64, "Invalid path")
    ∷ (65, "Invalid proto path")
    ∷ []

-- The switch; any other code has the empty description.
describe : List (ℕ × String) → ℕ → String
describe [] code = ""
describe ((n, text) ∷ cases) code = if n == code then text else describe cases code

unfoldable pub get_error_description : ℕ → String
unfolding describe
get_error_description code = if code == err_ok then "" else describe descriptions code
