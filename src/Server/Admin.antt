-- ===== src/Server/Admin.antt =====
-- The other administrative operations of `handle_session` in server/src/main.cpp.
-- What they call outside this file to make a report is the record `Services`.
use encoder_next.Prelude.{
  ℕ, zero, suc, Bool, true, false, not, ◌&&◌, ◌||◌, Option, none, some, List, [], ◌∷◌, ◌++◌, Bytes,
  codes, bytes_eq, ltb, leb, length, is_empty, decimal, if◌then◌else◌, find, put, Map, ℤ, pos,
  Result, max,
}
use encoder_next.Auth.{UserStore, UserRecord}
use encoder_next.Monitor.Store.{unlock_user, dump_locks}
use encoder_next.Protocol.{Header, get, set}
use encoder_next.Server.Context.{
  ClientBindingRecord, Env, Step, event, monitored, ◌>>=◌, ◌>>◌, answer, reads, or_refuse, insist,
  change, note, to_string, stoull,
}
use encoder_next.Server.Access.{user_of}
use encoder_next.Server.Account.{ok_message}

-- The Wi-Fi helper, the scanner, the snapshot (of the results or the status), the state of the
-- network, the alerts behind a number with their own numbers, and the last lines of the logs and of
-- the statistics.
pub record Services : Type 0 where
  pub wifi_change : Bytes → Option Bytes
  pub wifi_scan : Result Bytes
  pub wifi_snapshot : Bool → Result Bytes
  pub network_status : Result Bytes
  pub alerts_since : ℕ → ℕ → List (ℕ × Bytes)
  pub tail_logs : ℕ → List Bytes
  pub dump_stats : ℕ → List Bytes

abbrev pub Answer : Type 0
Answer = Header × Bytes

abbrev pub payload_header : Bytes → Header
payload_header payload =
    set (codes "payload_size") (decimal (length payload)) (set (codes "status") (codes "ok") [])

abbrev pub report : Bytes → Answer
report payload = (payload_header payload, payload)

unfoldable pub join_lines : List Bytes → Bytes
join_lines [] = []
join_lines (line ∷ lines) = line ++ (10 ∷ join_lines lines)

-- A number of the request, or the default for a field that is empty or missing.
abbrev pub number_of : Bytes → ℕ → Header → Option ℕ
number_of key default req =
    if is_empty (get key [] req) then some default else stoull (get key [] req)

abbrev pub limited : ℕ → (ℕ → Step Answer) → Header → Step Answer
limited default next req = do
  limit ← or_refuse (number_of (codes "limit") default req) (codes "Invalid parameters")
  next limit

abbrev pub flag : Bool → Bytes
flag true = codes "1"
flag false = codes "0"

abbrev is_on : Bytes → Bool
is_on text = bytes_eq text (codes "1") || bytes_eq text (codes "true")

abbrev pub user_report : Bytes × UserRecord → Bytes
user_report (name, r) =
    name
    ++ codes "|"
    ++ (if r.blocked then codes "blocked" else codes "active")
    ++ codes "|"
    ++ decimal r.permissions

unfoldable pub user_reports : UserStore → List Bytes
user_reports [] = []
user_reports (x ∷ xs) = user_report x ∷ user_reports xs

-- `UserStore::list`: the users in the order of their names, byte by byte.
unfoldable pub comes_before : Bytes → Bytes → Bool
comes_before [] [] = false
comes_before [] (d ∷ ds) = true
comes_before (c ∷ cs) [] = false
comes_before (c ∷ cs) (d ∷ ds) =
    let rest = comes_before cs ds in if ltb c d then true else if ltb d c then false else rest

unfoldable pub insert_user : Bytes × UserRecord → UserStore → UserStore
insert_user user [] = user ∷ []
insert_user user (x ∷ xs) =
    let rest = insert_user user xs in if comes_before x.0 user.0 then x ∷ rest else user ∷ x ∷ xs

unfoldable pub sorted_users : UserStore → UserStore
sorted_users [] = []
sorted_users (x ∷ xs) = insert_user x (sorted_users xs)

unfoldable pub list_users : Step Answer
list_users = do
  users ← reads (λ ctx. ctx.users)
  let payload = join_lines (user_reports (sorted_users users))
  answer (set (codes "user_count") (decimal (length users)) (payload_header payload), payload)

unfoldable pub last_id : ℕ → List (ℕ × Bytes) → ℕ
last_id last [] = last
last_id last (x ∷ xs) = last_id (max x.0 last) xs

unfoldable pub alert_lines : List (ℕ × Bytes) → List Bytes
alert_lines [] = []
alert_lines (x ∷ xs) = x.1 ∷ alert_lines xs

unfoldable pub get_alerts : Services → Header → Step Answer
get_alerts services req = do
  since ← or_refuse (number_of (codes "since_id") 0 req) (codes "Invalid parameters")
  limit ← or_refuse (number_of (codes "limit") 100 req) (codes "Invalid parameters")
  let alerts = services.alerts_since since limit
  let payload = join_lines (alert_lines alerts)
  answer (set (codes "last_id") (decimal (last_id since alerts)) (payload_header payload), payload)

unfoldable pub lock_lines : List (Bytes × ℤ × ℤ) → List Bytes
lock_lines [] = []
lock_lines ((user, until, left) ∷ xs) =
    (user ++ codes "|" ++ to_string until ++ codes "|" ++ to_string left) ∷ lock_lines xs

unfoldable pub get_locks : Env → ℕ → Step Answer
get_locks env limit = do
  locks ← reads (λ ctx. dump_locks limit env.checked_at ctx.monitor)
  answer (report (join_lines (lock_lines locks)))

unfoldable pub handle_unlock : Header → Step Answer
handle_unlock req = do
  insist (not (is_empty (user_of req))) (codes "Missing username")
  result ← reads (λ ctx. unlock_user (user_of req) ctx.monitor)
  insist result.0 (codes "User not found")
  change (λ ctx. record ctx { monitor = result.1; notes = monitored result.2 ∷ ctx.notes })
  note (event (codes "admin_unlock_user") (codes "admin") (user_of req))
  answer (ok_message (codes "User unlocked"), [])

abbrev pub binding_line : Bytes × ClientBindingRecord → Bytes
binding_line (id, r) =
    id
    ++ codes "|"
    ++ flag r.allowed
    ++ codes "|"
    ++ to_string r.first_seen_ts
    ++ codes "|"
    ++ to_string r.last_seen_ts
    ++ codes "|"
    ++ r.label

-- The loop stops once the limit is reached; a limit of 0 is none.
unfoldable pub binding_lines : ℕ → ℕ → Map ClientBindingRecord → List Bytes
binding_lines limit n [] = []
binding_lines limit n (x ∷ xs) =
    let rest = binding_lines limit (suc n) xs in
    if ltb 0 limit && leb limit (suc n) then binding_line x ∷ [] else binding_line x ∷ rest

unfoldable pub get_binding : ℕ → Step Answer
get_binding limit = do
  clients ← reads (λ ctx. ctx.client_bindings)
  enabled ← reads (λ ctx. ctx.binding_enabled)
  let payload = join_lines (binding_lines limit 0 clients)
  answer (
    set (codes "payload_size") (decimal (length payload))
        (set (codes "binding_enabled") (flag enabled) (set (codes "status") (codes "ok") [])),
    payload,
  )

unfoldable pub set_binding : Header → Step Answer
set_binding req = do
  let on = is_on (get (codes "enabled") [] req)
  change (λ ctx. record ctx { binding_enabled = on })
  note (
      event (codes "admin_set_binding") (codes "admin")
        (if on then codes "enabled" else codes "disabled"))
  answer (ok_message (if on then codes "Binding enabled" else codes "Binding disabled"), [])

abbrev is_zero : ℤ → Bool
is_zero (pos zero) = true
is_zero _ = false

abbrev new_client : ClientBindingRecord
new_client = record { allowed = false; first_seen_ts = pos 0; last_seen_ts = pos 0; label = [] }

abbrev or_new : Option ClientBindingRecord → ClientBindingRecord
or_new none = new_client
or_new (some r) = r

-- A record without a time is one that was just made.
abbrev pub decided : ℤ → Bool → ClientBindingRecord → ClientBindingRecord
decided now allowed r =
    if is_zero r.first_seen_ts
    then record {
      allowed = allowed;
      first_seen_ts = now;
      last_seen_ts = now;
      label = codes "manual";
    }
    else record r { allowed = allowed }

unfoldable pub set_client_allowed : Env → Header → Step Answer
set_client_allowed env req = do
  let id = get (codes "client_id") [] req
  insist (not (is_empty id)) (codes "Missing client_id")
  let allowed = is_on (get (codes "allowed") [] req)
  change (λ ctx. record ctx {
    client_bindings =
        put id (decided env.registered_at allowed (or_new (find id ctx.client_bindings)))
          ctx.client_bindings;
  })
  note (event (codes "admin_set_client_allowed") (codes "admin") (id ++ codes "=" ++ flag allowed))
  answer (ok_message (if allowed then codes "Client allowed" else codes "Client blocked"), [])
