-- ===== src/Sessions/Tests.antt =====
-- Engine sessions (src/bot.rs): a device in a chat whose ride waits for its confirmation.
use gt06n_tcp_server.Sessions.Answers.{
  SessionAction, Action, heartbeat_came, prompt_answered, sessions_checked, run,
}
use gt06n_tcp_server.Sessions.Numbered.{IsFresh}
use gt06n_tcp_server.Sessions.Reachable.{IsWell, run-IsWell}
use gt06n_tcp_server.Prelude.{
  suc, ◌+◌, ◌<◌, ◌≤◌, All, ℕ, ◌≡◌, refl, arith, List, [], ◌∷◌, length, true, false, none, ok,
}
use gt06n_tcp_server.Prelude.Int.{ℤ, pos}
use gt06n_tcp_server.Effects.{Env, call}
use gt06n_tcp_server.Ride.{ride_summary, should_send_ride_summary, rows_between, summary_of_rows}
use gt06n_tcp_server.Sessions.{
  Ids, SessionStatus, EngineNotice, EngineSession, StoredHeartbeat, Chats, is_active, active_for,
  active_sessions, insert_session, fetch_active_engine_sessions, update_session,
  resolve_engine_session_at, put_notification, find_notification, upsert_notification_state,
  fetch_notification_state, send_message, clear_inline_keyboard, attempt,
}
use gt06n_tcp_server.Sessions.Handling.{
  NotificationRecipient, already, theft_alert, report_ride, finish_from,
  finish_ride_session_and_send_summary, clear_keyboard_of, finish_each, message_for,
  engine_off_notice, by_status, process_heartbeat_notification_for_chat,
}
use gt06n_tcp_server.Sessions.Single.{IsSingle}
use gt06n_tcp_server.Sessions.Notified.{process_heartbeat_notification_for_chat-off}
use gt06n_tcp_server.Tests.Data.{whole, days}

-- An id above all those there are.
abbrev next_id : List (EngineSession ℤ) → ℕ
next_id [] = 1
next_id (row ∷ rows) = suc row.id + next_id rows

abbrev ids : Ids ℤ
ids = record { session_id = next_id; message_id = λ sent. length sent }

abbrev imei : List ℕ
imei = 0x31 ∷ 0x32 ∷ []

abbrev waiting_session : EngineSession ℤ
waiting_session = record {
  id = 3;
  imei = imei;
  chat_id = pos 12;
  trigger_heartbeat_id = 7;
  prompt_message_id = 40;
  ride_status_message_id = none;
  session_status = SessionStatus.pending_confirmation;
  created_at = pos 100;
  resolved_at = none;
}

abbrev ride : Env (Chats ℤ ℕ ℕ ℕ)
ride = record {
  store = record {
    sessions = waiting_session ∷ [];
    notifications =
        (record {
          imei = imei;
          chat_id = pos 12;
          last_status = EngineNotice.engine_on;
          last_message_id = 40;
          last_heartbeat_id = 7;
        })
        ∷ [];
    heartbeats = (record { id = 7; imei = imei; server_received_at = pos 100 }) ∷ [];
    locations = [];
    sent = [];
  };
  faults = [];
}

-- The same, with a failure of the fourth call.
abbrev failing_ride : Env (Chats ℤ ℕ ℕ ℕ)
failing_ride = record ride { faults = false ∷ false ∷ false ∷ true ∷ [] }

abbrev beat : StoredHeartbeat ℤ
beat = record { id = 8; imei = imei; server_received_at = pos 900 }

abbrev recipients : List NotificationRecipient
recipients =
    (record { chat_id = pos 12; has_active_subscription = true })
    ∷ (record { chat_id = pos 13; has_active_subscription = false })
    ∷ []

one_session : IsSingle whole days ℕ ℕ ids (pos 950) ride.store
unfolding active_sessions insert_session
one_session imei chat = ground arith

above :
    (rows : List (EngineSession ℤ)) (n : ℕ)
    → next_id rows ≤ n
    → All (λ (row : EngineSession ℤ). row.id < n) rows
above [] n h = ground arith
above (row ∷ rows) n h = (omega arith, above rows n (omega arith))

fresh : IsFresh whole days ℕ ℕ ids (pos 950)
fresh rows = above rows (next_id rows) (omega arith)

well : IsWell whole days ℕ ℕ ids (pos 950) ride.store
well = ((tt, tt), one_session)

-- The prompt is answered, the engine goes on again much later, the old prompt is answered once more, and
-- silent devices are looked for.
abbrev actions : List (Action whole days ℕ ℕ ids (pos 950))
actions =
    prompt_answered (pos 12) 40 SessionAction.no_theft
    ∷ heartbeat_came beat EngineNotice.engine_on recipients
    ∷ prompt_answered (pos 12) 40 SessionAction.yes_safe
    ∷ sessions_checked (λ groups. groups) (pos 2000)
    ∷ []

run-IsWell_example :
    IsWell whole days ℕ ℕ ids
      (pos 950)
      (run whole days ℕ ℕ ids (pos 950) actions failing_ride).store
run-IsWell_example = run-IsWell whole days ℕ ℕ ids (pos 950) fresh actions failing_ride well

abbrev switched_off : Env (Chats ℤ ℕ ℕ ℕ)
switched_off =
    (process_heartbeat_notification_for_chat whole days ℕ ℕ ids (pos 950) beat
      EngineNotice.engine_off (pos 12) ride).1

not_told :
    already whole days ℕ ℕ ids
      (pos 950)
      EngineNotice.engine_off
      (find_notification whole days ℕ ℕ ids (pos 950) imei (pos 12) ride.store.notifications)
    ≡ none
unfolding find_notification
not_told = refl

switched_off_ok :
    process_heartbeat_notification_for_chat whole days ℕ ℕ ids
      (pos 950)
      beat
      EngineNotice.engine_off
      (pos 12)
      ride
    ≡ (ok tt, switched_off)
unfolding process_heartbeat_notification_for_chat call by_status engine_off_notice
    fetch_notification_state find_notification fetch_active_engine_sessions active_sessions
    insert_session active_for is_active finish_each clear_keyboard_of clear_inline_keyboard attempt
    finish_ride_session_and_send_summary finish_from send_message ride_summary rows_between
    summary_of_rows should_send_ride_summary theft_alert report_ride resolve_engine_session_at
    update_session message_for upsert_notification_state put_notification
switched_off_ok = refl

process_heartbeat_notification_for_chat-off_example :
    active_sessions whole days ℕ ℕ ids (pos 950) imei (pos 12) switched_off.store.sessions ≡ []
process_heartbeat_notification_for_chat-off_example =
    process_heartbeat_notification_for_chat-off whole days ℕ ℕ ids (pos 950) beat (pos 12) ride
      switched_off not_told switched_off_ok
