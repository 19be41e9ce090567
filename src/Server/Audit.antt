-- ===== src/Server/Audit.antt =====
-- server/src/audit.cpp: the log of events and the numbered alerts.
-- A file is its bytes, and `none` cannot be opened for reading. The lock of the service makes each
-- operation one step; the readings of the clock and what a write comes to are arguments.
pub mod Numbers
pub mod Lines
pub mod Ascending
pub mod History
pub mod Polling
pub mod Tail
mod Tests
use encoder_next.Prelude.{
  ℕ, zero, suc, ◌+◌, ◌-◌, ◌%◌, ◌^◌, Bool, true, false, Option, none, some, List, [], ◌∷◌, ◌++◌,
  Bytes, codes, ltb, leb, if◌then◌else◌, is_empty, length, drop, getlines, decimal, ℤ,
}
use encoder_next.Protocol.{cut}
use encoder_next.Server.Context.{Written, written, not_opened, cut_short, to_string, stoull}
use encoder_next.Server.Policy.{stoll}

pub record AlertRecord : Type 0 where
  pub id : ℕ
  pub ts : ℤ
  pub kind : Bytes
  pub username : Bytes
  pub detail : Bytes

pub record AuditService : Type 0 where
  pub log_file : Option Bytes
  pub alert_file : Option Bytes
  pub next_alert_id : ℕ

unfoldable pub format_event_line : ℤ → Bytes → Bytes → Bytes → Bytes
format_event_line ts kind username detail =
    to_string ts ++ (b'|' ∷ (kind ++ (b'|' ∷ (username ++ (b'|' ∷ detail)))))

unfoldable pub format_alert_line : AlertRecord → Bytes
format_alert_line a =
    decimal a.id
    ++ (b'|' ∷ (to_string a.ts ++ (b'|' ∷ (a.kind ++ (b'|' ∷ (a.username ++ (b'|' ∷ a.detail)))))))

-- What stands between the first bars, that many at most, and behind them.
unfoldable pub cut_fields : ℕ → Bytes → List Bytes
cut_fields zero line = line ∷ []
cut_fields (suc n) line = elim (cut b'|' line) [
  | none ↦ line ∷ []
  | some x ↦ x.0 ∷ cut_fields n x.1
]

abbrev pub read_alert : Option ℕ → Option ℤ → Bytes → Bytes → Bytes → Option AlertRecord
read_alert (some id) (some ts) kind username detail =
    some (record { id = id; ts = ts; kind = kind; username = username; detail = detail })
read_alert _ _ kind username detail = none

abbrev pub alert_of : List Bytes → Option AlertRecord
alert_of (id ∷ ts ∷ kind ∷ username ∷ detail ∷ _) =
    read_alert (stoull id) (stoll ts) kind username detail
alert_of _ = none

unfoldable pub parse_alert_line : Bytes → Option AlertRecord
parse_alert_line line = alert_of (cut_fields 4 line)

abbrev pub larger_id : Option AlertRecord → ℕ → ℕ
larger_id none last = last
larger_id (some a) last = if ltb last a.id then a.id else last

unfoldable pub last_id_loop : List Bytes → ℕ → ℕ
last_id_loop [] last = last
last_id_loop (line ∷ lines) last = last_id_loop lines (larger_id (parse_alert_line line) last)

unfoldable pub load_last_alert_id : Option Bytes → ℕ
load_last_alert_id none = 0
load_last_alert_id (some text) = last_id_loop (getlines 10 text) 0

-- The constructor, over the files as it finds them; the number has 64 bits.
unfoldable pub start : Option Bytes → Option Bytes → AuditService
start log alerts = record {
  log_file = log;
  alert_file = alerts;
  next_alert_id = (load_last_alert_id alerts + 1) % 2 ^ 64;
}

abbrev pub contents : Option Bytes → Bytes
contents none = []
contents (some text) = text

-- A line at the end of a file that is opened with `std::ios::app`.
abbrev pub append_line : Written → Bytes → Option Bytes → Option Bytes
append_line written line file = some (contents file ++ (line ++ (10 ∷ [])))
append_line not_opened line file = file
append_line (cut_short part) line file = some (contents file ++ part)

unfoldable pub log_event : Written → ℤ → Bytes → Bytes → Bytes → AuditService → AuditService
log_event w now kind username detail s = record s {
  log_file = append_line w (format_event_line now kind username detail) s.log_file;
}

abbrev pub next_alert : ℤ → Bytes → Bytes → Bytes → AuditService → AlertRecord
next_alert now kind username detail s = record {
  id = s.next_alert_id;
  ts = now;
  kind = kind;
  username = username;
  detail = detail;
}

-- The two writes are those of the alert file and of the log.
unfoldable pub log_alert :
    Written → Written → ℤ → Bytes → Bytes → Bytes → AuditService → AlertRecord × AuditService
log_alert w v now kind username detail s =
    let alert = next_alert now kind username detail s in
    (
      alert,
      record {
        log_file =
            append_line v (format_event_line now (codes "alert:" ++ kind) username detail)
              s.log_file;
        alert_file = append_line w (format_alert_line alert) s.alert_file;
        next_alert_id = (s.next_alert_id + 1) % 2 ^ 64;
      },
    )

abbrev pub push_newer : ℕ → Option AlertRecord → List AlertRecord → List AlertRecord
push_newer since_id none rest = rest
push_newer since_id (some a) rest = if leb a.id since_id then rest else a ∷ rest

unfoldable pub newer_alerts : ℕ → List Bytes → List AlertRecord
newer_alerts since_id [] = []
newer_alerts since_id (line ∷ lines) =
    push_newer since_id (parse_alert_line line) (newer_alerts since_id lines)

-- Erases from the front what is more than the limit; 0 is no limit.
abbrev pub newest {ℓ} : {A : Type ℓ} → ℕ → List A → List A
newest zero out = out
newest (suc n) out = if ltb (suc n) (length out) then drop (length out - suc n) out else out

unfoldable pub get_alerts_since : ℕ → ℕ → AuditService → List AlertRecord
get_alerts_since since_id limit s =
    newest limit (newer_alerts since_id (getlines 10 (contents s.alert_file)))

abbrev pub drop_oldest : ℕ → List Bytes → List Bytes
drop_oldest zero buffer = buffer
drop_oldest (suc n) buffer = if ltb (suc n) (length buffer) then drop 1 buffer else buffer

-- The loop of `tail_logs` with the lines that its buffer holds.
unfoldable pub tail_loop : ℕ → List Bytes → List Bytes → List Bytes
tail_loop limit [] buffer = buffer
tail_loop limit (line ∷ lines) buffer =
    let kept = tail_loop limit lines (drop_oldest limit (buffer ++ (line ∷ []))) in
    let skipped = tail_loop limit lines buffer in if is_empty line then skipped else kept

unfoldable pub tail_logs : ℕ → AuditService → List Bytes
tail_logs limit s = tail_loop limit (getlines 10 (contents s.log_file)) []
