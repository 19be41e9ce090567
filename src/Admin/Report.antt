-- ===== src/Admin/Report.antt =====
-- What admin/src/admin_client.cpp takes of an answer of the server.
use encoder_next.Prelude.{
  ℕ, suc, zero, ◌^◌, ◌+◌, ◌/◌, ◌%◌, ◌<◌, ◌≤◌, ◌≡◌, refl, sym, ap, ◌∙◌, inl, inr, true, false,
  Option, none, some, List, [], ◌∷◌, ◌++◌, take_all, length-take, Bytes, codes, is_empty, all,
  length, take, ltb, Bool-cases, decimal, decimal_digits, decimal_loop, not_sep, is_digit, put,
  find, length-append, arith,
}
use encoder_next.Protocol.{trim, trim_start, trim_end, Header, get, set, serialize, read_header}
use encoder_next.Protocol.RoundTrip.{read_header-serialize, AllFields, AllNew}
use encoder_next.Server.Context.{stoull}
use encoder_next.Server.Admin.{join_lines, report, payload_header}
use encoder_next.Server.Audit.Numbers.{stoull-decimal}
use encoder_next.Server.Audit.Ascending.{AllLines, text_of, getlines-text_of}
use encoder_next.Client.Outcome.{fine, ◌>>=◌, or_fail}
use encoder_next.Client.Core.{status_ok}
use encoder_next.Client.Values.{is_solid, IsValue, solid-IsValue}
use encoder_next.Admin.{
  AdminDevice, normalize_host, connection_error, io_timeout, Network, payload_limit, payload_size,
  receive, receive_answer, exchange, send_request, server_error, command, nonempty_lines,
  payload_lines, limited, get_report,
}

-- Lines that a report can carry.
abbrev pub AllShown : List Bytes → Type 0
AllShown [] = Unit {0}
AllShown (line ∷ lines) = (is_empty line ≡ false) × (all (not_sep 10) line ≡ true) × AllShown lines

AllShown-AllLines : (lines : List Bytes) → AllShown lines → AllLines lines
AllShown-AllLines [] s = tt
AllShown-AllLines (line ∷ lines) s = (s.1, AllShown-AllLines lines s.2)

nonempty_lines_same : (lines : List Bytes) → AllShown lines → nonempty_lines lines ≡ lines
unfolding nonempty_lines
nonempty_lines_same [] s = refl
nonempty_lines_same (line ∷ lines) s = rw (s.0) (ap (◌∷◌ line) (nonempty_lines_same lines s.2))

join_lines-text_of : (lines : List Bytes) → join_lines lines ≡ text_of lines
unfolding join_lines
join_lines-text_of [] = refl
join_lines-text_of (line ∷ lines) = ap (λ rest. line ++ (10 ∷ rest)) (join_lines-text_of lines)

pub payload_lines-join_lines :
    (lines : List Bytes) → AllShown lines → payload_lines (join_lines lines) ≡ lines
payload_lines-join_lines lines s =
    rw (join_lines-text_of lines, getlines-text_of lines (AllShown-AllLines lines s))
      (nonempty_lines_same lines s)

fine_inj {ℓ} : {A : Type ℓ} {a b : A} → fine a ≡ fine b → a ≡ b
fine_inj h = cc h

-- An answer whose announced size is that of the payload, and within the limit.
abbrev pub IsBounded : Header × Bytes → Type 0
IsBounded (resp, payload) =
    (payload_size resp ≡ some (length payload)) × (length payload ≤ payload_limit)

IsBounded-take :
    (h : Header) (size : ℕ) (stream : Bytes) (a : Header × Bytes)
    → payload_size h ≡ some size
    → size ≤ payload_limit
    → size ≤ length stream
    → (h, take size stream) ≡ a
    → IsBounded a
IsBounded-take h size stream a announced fits enough e =
    let same : length (take size stream) ≡ size = omega (arith, length-take size stream) in
    rw (← e) (announced ∙ ap some (sym same), rw same fits)

IsBounded-receive :
    (h : Header) (size : ℕ) (stream : Bytes) (a : Header × Bytes)
    → payload_size h ≡ some size
    → receive h size stream ≡ fine a
    → IsBounded a
IsBounded-receive h size stream a announced e = elim (Bool-cases (ltb payload_limit size)) [
  | inl big ↦ absurd (cc (rw big at e))
  | inr fits ↦ elim (Bool-cases (ltb (length stream) size)) [
    | inl short ↦ absurd (cc (rw (fits, short) at e))
    | inr enough ↦
        IsBounded-take h size stream a announced (ground arith) (ground arith)
          (fine_inj (rw (fits, enough) at e))
  ]
]

IsBounded-sized :
    (h : Header) (stream : Bytes) (found : Option ℕ) (a : Header × Bytes)
    → payload_size h ≡ found
    → or_fail found (codes "Invalid payload_size") >>= (λ size. receive h size stream) ≡ fine a
    → IsBounded a
IsBounded-sized h stream none a announced e = absurd (cc e)
IsBounded-sized h stream (some size) a announced e = IsBounded-receive h size stream a announced e

IsBounded-receive_answer :
    (read : Option (Header × Bytes)) (a : Header × Bytes)
    → receive_answer read ≡ fine a
    → IsBounded a
IsBounded-receive_answer none a e = absurd (cc e)
IsBounded-receive_answer (some (h, stream)) a e = IsBounded-sized h stream (payload_size h) a refl e

IsBounded-exchange :
    (problem : Option Bytes) (answers : Bytes → Bytes) (header : Header) (a : Header × Bytes)
    → exchange problem answers header ≡ fine a
    → IsBounded a
IsBounded-exchange (some message) answers header a e = absurd (cc e)
IsBounded-exchange none answers header a e =
    IsBounded-receive_answer (read_header 65536 (answers (serialize header))) a e

-- Whatever a server sends, an answer that is taken has a payload of exactly the announced size, and
-- of at most 8 MiB.
pub send_request-IsBounded :
    (network : Network) (device : AdminDevice) (header : Header) (a : Header × Bytes)
    → send_request network device header ≡ fine a
    → IsBounded a
unfolding send_request
send_request-IsBounded network device header a e =
    IsBounded-exchange
      (connection_error
        (network.connect (normalize_host device.host) device.port (io_timeout header)))
      network.answers header a e

length-decimal_loop :
    (k left n : ℕ) (digits : Bytes)
    → n < 10 ^ k
    → n ≤ left
    → length (decimal_loop left n digits) ≤ suc k + length digits
unfolding decimal_loop
length-decimal_loop k zero n digits h l = omega arith
length-decimal_loop zero (suc left) n digits h l =
    let small : ltb n 10 ≡ true = ground arith in rw small (omega arith)
length-decimal_loop (suc k) (suc left) n digits h l = elim (Bool-cases (ltb n 10)) [
  | inl e ↦ rw e (omega arith)
  | inr e ↦
      let less : n / 10 < 10 ^ k = omega arith in
      let rest =
        length-decimal_loop k left (n / 10) ((b'0' + n % 10) ∷ digits) less (omega arith) in
      rw (e, decimal_loop) (omega (arith, rest))
]

-- A payload within the limit has a size of at most eight digits.
length-decimal : (n : ℕ) → n ≤ payload_limit → length (decimal n) ≤ 8
unfolding decimal
length-decimal n h = omega (arith, length-decimal_loop 7 n n [] (omega arith) (omega arith))

abbrev plain_header : Bytes → Header
plain_header size = (codes "status", codes "ok") ∷ (codes "payload_size", size) ∷ []

payload_header_lem :
    (payload : Bytes) → payload_header payload ≡ plain_header (decimal (length payload))
unfolding set put
payload_header_lem payload = refl

digits_solid : (cs : Bytes) → all is_digit cs ≡ true → all is_solid cs ≡ true
digits_solid [] h = refl
digits_solid (c ∷ cs) h = ground (arith, digits_solid cs)

plain_header_sound :
    (size : Bytes) → IsValue size → AllFields (plain_header size) × AllNew [] (plain_header size)
unfolding find trim trim_start trim_end
plain_header_sound size v = (
  ((refl, refl, refl, refl, refl, refl), ((refl, refl, refl, v.0, refl, v.1), tt)),
  (refl, (refl, tt)),
)

plain_header_small :
    (size : Bytes) → length size ≤ 8 → length (serialize (plain_header size)) < 65536
unfolding serialize
plain_header_small size h = omega (arith, length-append size (10 ∷ 10 ∷ []))

receive_whole :
    (payload : Bytes) (size : Bytes)
    → is_empty size ≡ false
    → stoull size ≡ some (length payload)
    → length payload ≤ payload_limit
    → receive_answer (some (plain_header size, payload)) ≡ fine (plain_header size, payload)
unfolding get find
receive_whole payload size some' reads h =
    let fits : ltb payload_limit (length payload) ≡ false = ground arith in
    let enough : ltb (length payload) (length payload) ≡ false = ground arith in
    rw (some', reads, fits, enough, take_all payload) refl

-- A stream that begins with the header of a report and its payload.
receive_sent :
    (payload : Bytes)
    → length payload ≤ payload_limit
    → receive_answer (read_header 65536 (serialize (payload_header payload) ++ payload))
      ≡ fine (payload_header payload, payload)
receive_sent payload h =
    let size = decimal (length payload) in
    let (digits, some') = decimal_digits (length payload) in
    let (fields, new) = plain_header_sound size (solid-IsValue size (digits_solid size digits)) in
    let reads =
      read_header-serialize 65536 (codes "status", codes "ok") ((codes "payload_size", size) ∷ [])
        payload fields new (plain_header_small size (length-decimal (length payload) h)) in
    rw (payload_header_lem payload, reads)
      (receive_whole payload size some' (stoull-decimal (length payload) (omega arith)) h)

IsOk-payload_header :
    (payload : Bytes)
    → status_ok server_error (payload_header payload, payload)
      ≡ fine (payload_header payload, payload)
unfolding get find
IsOk-payload_header payload = rw (payload_header_lem payload) refl

command-report :
    (network : Network) (device : AdminDevice) (header : Header) (payload : Bytes)
    → length payload ≤ payload_limit
    → connection_error
        (network.connect (normalize_host device.host) device.port (io_timeout header))
      ≡ none
    → network.answers (serialize header) ≡ serialize (payload_header payload) ++ payload
    → command network device header ≡ fine (payload_header payload, payload)
unfolding command send_request
command-report network device header payload h connected sent =
    rw (connected, sent, receive_sent payload h) (IsOk-payload_header payload)

-- If the connection holds and the server answers with its report of some lines, which are not empty
-- and have no line end, and together with their line ends take at most 8 MiB, then the
-- administrator's application gets exactly these lines, in their order. The commands that read the
-- logs, the statistics and the locks are all of this form.
pub get_report-report :
    (op : Bytes) (network : Network) (device : AdminDevice) (limit : ℕ) (lines : List Bytes)
    → AllShown lines
    → length (join_lines lines) ≤ payload_limit
    → (connection_error (
          network.connect
            (normalize_host device.host)
            device.port
            (io_timeout (limited op device limit)))
        ≡ none)
    → (network.answers (serialize (limited op device limit))
        ≡ serialize (report (join_lines lines)).0 ++ (report (join_lines lines)).1)
    → get_report op network device limit ≡ fine lines
get_report-report op network device limit lines shown h connected sent =
    rw (command-report network device (limited op device limit) (join_lines lines) h connected sent)
      (ap fine (payload_lines-join_lines lines shown))
