-- ===== src/Sessions/Handling.antt =====
-- src/bot.rs: what the bot does with one heartbeat and one recipient.
use gt06n_tcp_server.Prelude.{
  ℕ, List, [], ◌∷◌, Bool, true, false, ◌&&◌, not, if◌then◌else◌, Option, none, some,
}
use gt06n_tcp_server.Prelude.Int.{ℤ}
use gt06n_tcp_server.Float.{Float64}
use gt06n_tcp_server.Chrono.{Chrono}
use gt06n_tcp_server.Effects.{M, ◌>>=◌, ◌>>◌, return, call}
use gt06n_tcp_server.Ride.{ride_summary, should_send_ride_summary}
use gt06n_tcp_server.Sessions.{
  Ids, EngineNotice, NotificationState, StoredHeartbeat, Text, is_pending, is_theft, same_notice,
  Session, Store, fetch_active_engine_sessions, resolve_engine_session_at,
  set_engine_session_ride_status_message_id, create_engine_session, upsert_notification_state,
  fetch_notification_state, fetch_heartbeat_server_received_at_by_id, send_message, nothing,
  clear_inline_keyboard, should_start_new_engine_on_session, read_summary, attempt,
}

pub record NotificationRecipient : Type 0 where
  pub chat_id : ℤ
  pub has_active_subscription : Bool

module _ (fl : Float64) (chrono : Chrono) (P N : Type 0) (ids : Ids (chrono.Instant))
    (now : chrono.Instant) where
  open chrono use {Instant}

  abbrev S : Type 0
  S = Store fl chrono P N ids now

  abbrev Ses : Type 0
  Ses = Session fl chrono P N ids now

  abbrev send : ℤ → Text → M S ℕ
  send chat_id text = send_message fl chrono P N ids now chat_id text

  abbrev resolve : ℕ → Instant → M S (Unit {0})
  resolve id at = resolve_engine_session_at fl chrono P N ids now id at

  abbrev note : List ℕ → ℤ → EngineNotice → ℕ → ℕ → M S (Unit {0})
  note imei chat_id status message_id heartbeat_id =
      upsert_notification_state fl chrono P N ids now imei chat_id status message_id heartbeat_id

  unfoldable pub theft_alert : ℤ → Bool → M S (Unit {0})
  theft_alert chat_id false = return tt
  theft_alert chat_id true = send chat_id Text.theft_engine_off >>= λ _. return tt

  -- The summary is sent, or the message before it stands for the ride.
  unfoldable pub report_ride : ℤ → Ses → ℕ → Bool → M S ℕ
  report_ride chat_id session finished_id false = return finished_id
  report_ride chat_id session finished_id true =
      send chat_id Text.ride_summary_report >>= λ message_id.
      set_engine_session_ride_status_message_id fl chrono P N ids now session.id message_id
      >> return message_id

  -- From the message that the ride has, if any.
  unfoldable pub finish_from : Option ℕ → ℤ → List ℕ → Ses → Instant → Bool → M S ℕ
  unfolding call ride_summary should_send_ride_summary theft_alert report_ride
  finish_from (some message_id) chat_id imei session ended_at alert =
      resolve session.id ended_at >> return message_id
  finish_from none chat_id imei session ended_at alert = do
    session_finished_message_id ← send chat_id Text.session_finished
    summary ← call (read_summary fl chrono P N ids now imei session.created_at ended_at)
    call (nothing fl chrono P N ids now)
    theft_alert chat_id (alert && is_theft session.session_status)
    message_id ←
        report_ride chat_id session session_finished_message_id
          (should_send_ride_summary fl chrono summary)
    resolve session.id now
    return message_id

  unfoldable pub finish_ride_session_and_send_summary : ℤ → List ℕ → Ses → Instant → Bool → M S ℕ
  unfolding finish_from
  finish_ride_session_and_send_summary chat_id imei session ended_at alert =
      finish_from session.ride_status_message_id chat_id imei session ended_at alert

  unfoldable pub clear_keyboard_of : Ses → M S (Unit {0})
  clear_keyboard_of session =
      if is_pending session.session_status
      then clear_inline_keyboard fl chrono P N ids now
      else return tt

  -- The loop, with the last message so far.
  unfoldable pub finish_each : ℤ → List ℕ → Instant → Bool → Option ℕ → List Ses → M S (Option ℕ)
  unfolding clear_keyboard_of finish_ride_session_and_send_summary
  finish_each chat_id imei ended_at alert last_message_id [] = return last_message_id
  finish_each chat_id imei ended_at alert last_message_id (session ∷ sessions) =
      clear_keyboard_of session
      >> (finish_ride_session_and_send_summary chat_id imei session ended_at alert >>= λ message_id.
          finish_each chat_id imei ended_at alert (some message_id) sessions)

  abbrev pub finish_active_engine_sessions : ℤ → List ℕ → List Ses → Instant → Bool → M S (Option ℕ)
  finish_active_engine_sessions chat_id imei sessions ended_at alert =
      finish_each chat_id imei ended_at alert none sessions

  unfoldable pub finish_silently : Instant → List Ses → M S (Unit {0})
  unfolding clear_keyboard_of
  finish_silently ended_at [] = return tt
  finish_silently ended_at (session ∷ sessions) =
      clear_keyboard_of session
      >> (resolve session.id ended_at >> finish_silently ended_at sessions)

  unfoldable pub finish_inactive_subscription_sessions : List ℕ → ℤ → Instant → M S (Unit {0})
  unfolding finish_silently
  finish_inactive_subscription_sessions imei chat_id ended_at =
      fetch_active_engine_sessions fl chrono P N ids now imei chat_id >>= finish_silently ended_at

  -- `.iter().rev().find(…)`
  last_pending : Option ℕ → List Ses → Option ℕ
  last_pending found [] = found
  last_pending found (s ∷ sessions) =
      last_pending (if is_pending s.session_status then some s.prompt_message_id else found)
        sessions

  -- The message that goes on standing for the ride.
  pub continued_message : List Ses → Option NotificationState → ℕ
  unfolding last_pending
  continued_message sessions existing = elim (last_pending none sessions) [
    | some message_id ↦ message_id
    | none ↦ elim existing [ none ↦ 0 | some state ↦ state.last_message_id ]
  ]

  unfoldable pub last_on_heartbeat_at : Option NotificationState → M S (Option Instant)
  last_on_heartbeat_at none = return none
  last_on_heartbeat_at (some state) =
      if same_notice state.last_status EngineNotice.engine_on
      then fetch_heartbeat_server_received_at_by_id fl chrono P N ids now state.last_heartbeat_id
      else return none

  -- The old sessions end, and a new one begins with its prompt.
  unfoldable pub start_session : StoredHeartbeat Instant → ℤ → List Ses → M S (Unit {0})
  unfolding finish_each
  start_session heartbeat chat_id active_sessions = do
    last ←
        finish_active_engine_sessions chat_id heartbeat.imei active_sessions
          heartbeat.server_received_at false
    message_id ← send chat_id Text.engine_on_confirmation
    create_engine_session fl chrono P N ids now heartbeat.imei chat_id heartbeat.id message_id
        heartbeat.server_received_at
    note heartbeat.imei chat_id EngineNotice.engine_on message_id heartbeat.id

  unfoldable pub engine_on_at :
      StoredHeartbeat Instant
      → ℤ
      → Option NotificationState
      → List Ses
      → Option Instant
      → M S (Unit {0})
  unfolding continued_message start_session
  engine_on_at heartbeat chat_id existing active_sessions last_on =
      if not (
        should_start_new_engine_on_session fl chrono P N ids now heartbeat.server_received_at
          last_on)
      then note heartbeat.imei chat_id EngineNotice.engine_on
          (continued_message active_sessions existing) heartbeat.id
      else start_session heartbeat chat_id active_sessions

  unfoldable pub process_engine_on_notification_for_chat :
      StoredHeartbeat Instant → ℤ → Option NotificationState → M S (Unit {0})
  unfolding last_on_heartbeat_at engine_on_at
  process_engine_on_notification_for_chat heartbeat chat_id existing =
      fetch_active_engine_sessions fl chrono P N ids now heartbeat.imei chat_id
      >>= λ active_sessions. last_on_heartbeat_at existing >>= λ last_on.
          engine_on_at heartbeat chat_id existing active_sessions last_on

  -- `existing` with the status of the heartbeat.
  abbrev pub already : EngineNotice → Option NotificationState → Option NotificationState
  already status none = none
  already status (some state) = if same_notice state.last_status status then some state else none

  -- The last message of the rides that ended, or else one for the status alone.
  unfoldable pub message_for : ℤ → Text → Option ℕ → M S ℕ
  message_for chat_id text (some message_id) = return message_id
  message_for chat_id text none = send chat_id text

  unfoldable pub engine_off_notice :
      StoredHeartbeat Instant → ℤ → Option NotificationState → M S (Unit {0})
  unfolding finish_each message_for
  engine_off_notice heartbeat chat_id (some state) =
      note heartbeat.imei chat_id EngineNotice.engine_off state.last_message_id heartbeat.id
  engine_off_notice heartbeat chat_id none = do
    active_sessions ← fetch_active_engine_sessions fl chrono P N ids now heartbeat.imei chat_id
    last ←
        finish_active_engine_sessions chat_id heartbeat.imei active_sessions
          heartbeat.server_received_at true
    message_id ← message_for chat_id (Text.engine_status EngineNotice.engine_off) last
    note heartbeat.imei chat_id EngineNotice.engine_off message_id heartbeat.id

  unfoldable pub by_status :
      StoredHeartbeat Instant → EngineNotice → ℤ → Option NotificationState → M S (Unit {0})
  unfolding process_engine_on_notification_for_chat engine_off_notice
  by_status heartbeat EngineNotice.engine_on chat_id existing =
      process_engine_on_notification_for_chat heartbeat chat_id existing
  by_status heartbeat EngineNotice.engine_off chat_id existing =
      engine_off_notice heartbeat chat_id (already EngineNotice.engine_off existing)

  unfoldable pub process_heartbeat_notification_for_chat :
      StoredHeartbeat Instant → EngineNotice → ℤ → M S (Unit {0})
  unfolding by_status
  process_heartbeat_notification_for_chat heartbeat status chat_id =
      fetch_notification_state fl chrono P N ids now heartbeat.imei chat_id
      >>= by_status heartbeat status chat_id

  unfoldable pub tell_inactive :
      StoredHeartbeat Instant → EngineNotice → ℤ → Option NotificationState → M S (Unit {0})
  tell_inactive heartbeat status chat_id (some state) =
      note heartbeat.imei chat_id status state.last_message_id heartbeat.id
  tell_inactive heartbeat status chat_id none =
      send chat_id (Text.inactive_subscription status) >>= λ message_id.
      note heartbeat.imei chat_id status message_id heartbeat.id

  unfoldable pub process_inactive_subscription_notification_for_chat :
      StoredHeartbeat Instant → EngineNotice → ℤ → M S (Unit {0})
  unfolding tell_inactive
  process_inactive_subscription_notification_for_chat heartbeat status chat_id =
      fetch_notification_state fl chrono P N ids now heartbeat.imei chat_id >>= λ existing.
      tell_inactive heartbeat status chat_id (already status existing)

  -- One recipient. Failures are logged, but for those of ending the sessions of an inactive subscription.
  unfoldable pub process_recipient :
      StoredHeartbeat Instant → EngineNotice → NotificationRecipient → M S (Unit {0})
  unfolding attempt process_heartbeat_notification_for_chat
      process_inactive_subscription_notification_for_chat finish_inactive_subscription_sessions
  process_recipient heartbeat status recipient =
      if recipient.has_active_subscription
      then attempt fl chrono P N ids now
          (process_heartbeat_notification_for_chat heartbeat status recipient.chat_id)
      else if same_notice status EngineNotice.engine_off
      then attempt fl chrono P N ids now
          (process_inactive_subscription_notification_for_chat heartbeat status recipient.chat_id)
        >> finish_inactive_subscription_sessions heartbeat.imei recipient.chat_id
            heartbeat.server_received_at
      else attempt fl chrono P N ids now
          (process_inactive_subscription_notification_for_chat heartbeat status recipient.chat_id)

  -- `for recipient in notification_recipients`
  unfoldable pub process_recipients :
      StoredHeartbeat Instant → EngineNotice → List NotificationRecipient → M S (Unit {0})
  unfolding process_recipient
  process_recipients heartbeat status [] = return tt
  process_recipients heartbeat status (recipient ∷ recipients) =
      process_recipient heartbeat status recipient >> process_recipients heartbeat status recipients
