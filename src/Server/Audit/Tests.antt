-- ===== src/Server/Audit/Tests.antt =====
-- Runs of the audit service of server/src/audit.cpp.
use encoder_next.Prelude.{
  ◌+◌, ◌^◌, ◌<◌, ◌≡◌, refl, map, none, List, [], ◌∷◌, codes, length, pos, decimal, decimal_loop,
  digits_value, getlines, arith,
}
use encoder_next.Crypto.Names.{skip_spaces}
use encoder_next.Protocol.{cut}
use encoder_next.Server.Context.{written, not_opened, leading_digits, stoull}
use encoder_next.Server.Policy.{stoll}
use encoder_next.Server.Audit.{
  AuditService, start, get_alerts_since, newer_alerts, parse_alert_line, cut_fields,
  load_last_alert_id, last_id_loop, log_alert, log_event, format_alert_line, format_event_line,
  tail_logs, tail_loop,
}
use encoder_next.Server.Audit.History.{
  Event, issued, event, alert, restart, serve, serve_all, AllPlain, IsNumbered,
}
use encoder_next.Server.Audit.Ascending.{Within}
use encoder_next.Server.Audit.Polling.{Answers, get_alerts_since-serve_all}

abbrev empty_service : AuditService
empty_service = start none none

-- Two alerts around a restart, one of them with bars, and one that could not be written.
abbrev events : List Event
events =
    alert written written (pos 5) (codes "lock") (codes "bob") (codes "a|b")
    ∷ event written (pos 6) (codes "login") (codes "eve") []
    ∷ restart
    ∷ alert written not_opened (pos 7) (codes "hash") (codes "x|y") (codes "f")
    ∷ alert not_opened written (pos 8) (codes "late") (codes "eve") []
    ∷ []

events_plain : AllPlain events
events_plain = (
  (refl, omega arith, refl, refl, refl),
  (tt, (tt, ((refl, omega arith, refl, refl, refl), ((refl, omega arith, refl, refl, refl), tt)))),
)

empty_IsNumbered : IsNumbered empty_service
unfolding start load_last_alert_id Within
empty_IsNumbered = ([], (refl, tt, omega arith))

few : empty_service.next_alert_id + length events < 2 ^ 64
unfolding start load_last_alert_id
few = omega arith

ids_seen : map (λ a. a.id) (get_alerts_since 0 0 (serve_all events empty_service)) ≡ 1 ∷ 2 ∷ []
unfolding get_alerts_since newer_alerts getlines serve_all serve log_alert start log_event
    format_alert_line decimal decimal_loop load_last_alert_id parse_alert_line cut_fields cut stoull
    skip_spaces digits_value format_event_line last_id_loop leading_digits stoll
ids_seen = refl

get_alerts_since-serve_all_example : Answers 1 (issued events empty_service) (
    get_alerts_since
      (load_last_alert_id empty_service.alert_file)
      1
      (serve_all events empty_service))
get_alerts_since-serve_all_example =
    get_alerts_since-serve_all events empty_service 1 events_plain few empty_IsNumbered

tail_line : tail_logs 1 (serve_all events empty_service) ≡ codes "8|alert:late|eve|" ∷ []
unfolding tail_logs tail_loop getlines serve_all serve log_alert start log_event format_alert_line
    decimal decimal_loop load_last_alert_id parse_alert_line cut_fields cut stoull skip_spaces
    digits_value format_event_line last_id_loop leading_digits stoll
tail_line = refl
