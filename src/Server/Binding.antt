-- ===== src/Server/Binding.antt =====
-- The binding of clients in server/src/main.cpp: `register_client`, `is_client_allowed` and
-- `enforce_client_binding`. Each change also rewrites the file of the policy, Server.Policy; that is left out.
use encoder_next.Prelude.{
  Bool, true, false, not, Option, none, some, [], ◌++◌, Bytes, codes, is_empty, map, ◌==◌,
  if◌then◌else◌, find, put, ℤ,
}
use encoder_next.Protocol.{Header, get}
use encoder_next.Server.Context.{
  ClientBindingRecord, alert, ServerContext, Env, Step, ◌>>=◌, ◌>>◌, answer, refuse, reads, change,
  note,
}

unfoldable pub sanitize_label : Bytes → Bytes
sanitize_label label = map (λ c. if c == b'|' then b'/' else c) label

-- The record of a client that was met at a time, with the old one if there is any.
abbrev pub met : Bool → ℤ → Bytes → Option ClientBindingRecord → ClientBindingRecord
met enabled now label none = record {
  allowed = not enabled;
  first_seen_ts = now;
  last_seen_ts = now;
  label = sanitize_label label;
}
met enabled now label (some old) = record old {
  last_seen_ts = now;
  label = if is_empty label then old.label else sanitize_label label;
}

unfoldable pub register_client : Bytes → Bytes → ℤ → ServerContext → ServerContext
register_client client_id label now ctx = record ctx {
  client_bindings =
      put client_id (met ctx.binding_enabled now label (find client_id ctx.client_bindings))
        ctx.client_bindings;
}

abbrev pub allowed_by : Bool → Option ClientBindingRecord → Bool
allowed_by false found = true
allowed_by true none = false
allowed_by true (some r) = r.allowed

unfoldable pub is_client_allowed : Bytes → ServerContext → Bool
is_client_allowed client_id ctx =
    allowed_by ctx.binding_enabled (find client_id ctx.client_bindings)

-- The name by which a request's client is known.
abbrev pub client_of : Header → Bytes
client_of req =
    let id = get (codes "client_id") [] req in if is_empty id then codes "unknown" else id

abbrev pub host_of : Header → Bytes
host_of req = get (codes "client_host") (codes "unknown") req

abbrev pub block_detail : Header → Bytes → Bytes
block_detail req op =
    codes "op=" ++ op ++ codes " client_id=" ++ client_of req ++ codes " host=" ++ host_of req

unfoldable pub enforce_client_binding : Env → Header → Bytes → Bytes → Step (Unit {0})
enforce_client_binding env req username op = do
  change (register_client (client_of req) (host_of req) env.registered_at)
  allowed ← reads (is_client_allowed (client_of req))
  if allowed
      then answer tt
      else (note (alert (codes "client_binding_block") username (block_detail req op))
          >> refuse (codes "Client is not allowed by binding policy"))
