-- ===== src/Admin/Tests.antt =====
-- Runs of admin/src/admin_client.cpp.
use encoder_next.Prelude.{
  ◌≡◌, refl, List, [], ◌∷◌, ◌++◌, Bytes, codes, find, put, getlines, digits_value, pos, arith,
}
use encoder_next.Protocol.{
  Header, get, set, serialize, read_header, parse, trim, trim_start, trim_end, parse_lines, cut,
  read_loop,
}
use encoder_next.Crypto.Names.{skip_spaces}
use encoder_next.Server.Context.{stoull, leading_digits}
use encoder_next.Server.Admin.{join_lines, report}
use encoder_next.Client.Outcome.{fine, failed}
use encoder_next.Admin.{
  AdminDevice, no_timeout, established, connection_error, normalize_host, io_timeout, Network,
  request, send_request, command, get_report, unlock_user,
}
use encoder_next.Admin.Report.{IsBounded, send_request-IsBounded, get_report-report}

abbrev device : AdminDevice
device = record { name = codes "lab"; host = codes "::"; port = pos 7444; token = codes "t0" }

abbrev lines : List Bytes
lines = codes "one" ∷ codes "two" ∷ []

abbrev answering : Bytes → Network
answering stream = record { connect = λ host port timeout. established; answers = λ bytes. stream }

abbrev stream : Bytes
stream = serialize (report (join_lines lines)).0 ++ (report (join_lines lines)).1

get_report-report_example :
    get_report (codes "admin_get_logs") (answering stream) device 5 ≡ fine lines
unfolding connection_error join_lines
get_report-report_example =
    get_report-report (codes "admin_get_logs") (answering stream) device 5 lines
      (refl, refl, (refl, refl, tt)) (omega arith) refl refl

abbrev short_header : Header
short_header = (codes "payload_size", codes "2") ∷ []

sent :
    send_request
      (answering (serialize short_header ++ codes "abc"))
      device
      (request (codes "op") device)
    ≡ fine (short_header, codes "ab")
unfolding send_request connection_error get set find put serialize read_header read_loop parse
    parse_lines cut getlines trim trim_start trim_end stoull digits_value skip_spaces leading_digits
sent = refl

send_request-IsBounded_example : IsBounded (short_header, codes "ab")
send_request-IsBounded_example =
    send_request-IsBounded (answering (serialize short_header ++ codes "abc")) device
      (request (codes "op") device) (short_header, codes "ab") sent

-- The stream that `short_header` announces ends too early.
payload_lost :
    send_request
      (answering (serialize short_header ++ codes "a"))
      device
      (request (codes "op") device)
    ≡ failed [] (codes "Failed to read payload")
unfolding send_request connection_error get set find put serialize read_header read_loop parse
    parse_lines cut getlines trim trim_start trim_end stoull digits_value skip_spaces leading_digits
payload_lost = refl

abbrev huge_header : Header
huge_header = (codes "payload_size", codes "8388609") ∷ []

payload_refused :
    send_request (answering (serialize huge_header)) device (request (codes "op") device)
    ≡ failed [] (codes "Administrative response exceeds 8 MiB limit")
unfolding send_request connection_error get set find put serialize read_header read_loop parse
    parse_lines cut getlines trim trim_start trim_end stoull digits_value skip_spaces leading_digits
payload_refused = refl

abbrev no_timer : Network
no_timer = record { connect = λ host port timeout. no_timeout; answers = λ bytes. [] }

not_unlocked :
    unlock_user no_timer device (codes "eve") ≡ failed [] (codes "Cannot set network I/O timeout")
unfolding unlock_user command send_request connection_error
not_unlocked = refl

scan_waits_longer : io_timeout (request (codes "admin_wifi_scan") device) ≡ 35000
unfolding io_timeout get set find put
scan_waits_longer = refl

any_address_is_local : normalize_host device.host ≡ codes "127.0.0.1"
unfolding normalize_host
any_address_is_local = refl
