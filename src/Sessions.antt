-- ===== src/Sessions.antt =====
-- src/bot.rs: the engine sessions that the bot opens and ends as heartbeats come in, one session per
-- ride of a device and chat. Nothing here runs in a transaction: each call to the database or to
-- Telegram takes effect at once. The texts of messages are left out, their kinds are kept.
pub mod Answers
pub mod Ending
pub mod Fewer
pub mod Handling
pub mod Notified
pub mod Numbered
pub mod Reachable
pub mod Single
pub mod Tests
pub mod Unique
use gt06n_tcp_server.Prelude.{
  ℕ, ◌*◌, List, [], ◌∷◌, ◌++◌, Bool, true, false, ◌&&◌, ◌||◌, not, ltb, ◌==◌, if◌then◌else◌,
  is_empty, Option, none, some, Result, ok, err,
}
use gt06n_tcp_server.Prelude.Int.{ℤ, pos, leb_ℤ, eqb_ℤ}
use gt06n_tcp_server.Float.{Float64}
use gt06n_tcp_server.Chrono.{Chrono}
use gt06n_tcp_server.Effects.{M, Env, ◌>>=◌, ◌>>◌, return, call}
use gt06n_tcp_server.Protocol.Framing.{bytes_eq}
use gt06n_tcp_server.Tracking.{LocationRow}
use gt06n_tcp_server.Ride.{RideSummary, ride_summary, should_send_ride_summary}

abbrev pub engine_on_alert_cooldown_secs : ℤ
engine_on_alert_cooldown_secs = pos (10 * 60)

abbrev pub stale_engine_session_timeout_secs : ℤ
stale_engine_session_timeout_secs = engine_on_alert_cooldown_secs

-- The values of the column `session_status` that the bot writes.
pub data SessionStatus : Type 0 where
  pending_confirmation confirmed_safe reported_theft finished : SessionStatus

-- The two statuses that `notification_status` gives.
pub data EngineNotice : Type 0 where
  engine_on engine_off : EngineNotice

pub record EngineSession (I : Type 0) : Type 0 where
  pub id : ℕ
  pub imei : List ℕ
  pub chat_id : ℤ
  pub trigger_heartbeat_id : ℕ
  pub prompt_message_id : ℕ
  pub ride_status_message_id : Option ℕ
  pub session_status : SessionStatus
  pub created_at : I
  pub resolved_at : Option I

pub record NotificationState : Type 0 where
  pub imei : List ℕ
  pub chat_id : ℤ
  pub last_status : EngineNotice
  pub last_message_id : ℕ
  pub last_heartbeat_id : ℕ

-- A stored heartbeat, as far as the bot decides by it.
pub record StoredHeartbeat (I : Type 0) : Type 0 where
  pub id : ℕ
  pub imei : List ℕ
  pub server_received_at : I

pub data Text : Type 0 where
  session_finished ride_summary_report theft_engine_off ride_safe theft_warning
        engine_on_confirmation :
      Text
  engine_status inactive_subscription : EngineNotice → Text

pub record Chats (I P F N : Type 0) : Type 0 where
  pub sessions : List (EngineSession I)
  pub notifications : List NotificationState
  pub heartbeats : List (StoredHeartbeat I)
  pub locations : List (LocationRow I P F N)
  pub sent : List (ℤ × Text)

-- The ids that the database and Telegram hand out.
pub record Ids (I : Type 0) : Type 0 where
  pub session_id : List (EngineSession I) → ℕ
  pub message_id : List (ℤ × Text) → ℕ

-- `session_status IN ('pending_confirmation', 'confirmed_safe', 'reported_theft')`
unfoldable pub is_active : SessionStatus → Bool
is_active SessionStatus.finished = false
is_active _ = true

abbrev pub is_pending : SessionStatus → Bool
is_pending SessionStatus.pending_confirmation = true
is_pending _ = false

abbrev pub is_theft : SessionStatus → Bool
is_theft SessionStatus.reported_theft = true
is_theft _ = false

abbrev pub same_notice : EngineNotice → EngineNotice → Bool
same_notice EngineNotice.engine_on EngineNotice.engine_on = true
same_notice EngineNotice.engine_off EngineNotice.engine_off = true
same_notice _ _ = false

module _ (fl : Float64) (chrono : Chrono) (P N : Type 0) (ids : Ids (chrono.Instant))
    (now : chrono.Instant) where
  open fl use {F}
  open chrono use {Instant, same, before, num_seconds}

  abbrev pub Session : Type 0
  Session = EngineSession Instant

  abbrev pub Store : Type 0
  Store = Chats Instant P F N

  -- The row stands for the device and the chat, and is not finished.
  unfoldable pub active_for : List ℕ → ℤ → Session → Bool
  unfolding is_active
  active_for imei chat_id s =
      bytes_eq s.imei imei && eqb_ℤ s.chat_id chat_id && is_active s.session_status

  -- `ORDER BY created_at ASC, id ASC`
  pub earlier : Session → Session → Bool
  earlier a b =
      before a.created_at b.created_at || (same a.created_at b.created_at && ltb a.id b.id)

  pub insert_session : Session → List Session → List Session
  unfolding earlier
  insert_session s [] = s ∷ []
  insert_session s (r ∷ rows) = if earlier s r then s ∷ r ∷ rows else r ∷ insert_session s rows

  pub active_sessions : List ℕ → ℤ → List Session → List Session
  unfolding insert_session active_for
  active_sessions imei chat_id [] = []
  active_sessions imei chat_id (row ∷ rows) =
      let others = active_sessions imei chat_id rows in
      if active_for imei chat_id row then insert_session row others else others

  abbrev pub read_active : List ℕ → ℤ → Store → List Session × Store
  read_active imei chat_id t = (active_sessions imei chat_id t.sessions, t)

  pub fetch_active_engine_sessions : List ℕ → ℤ → M Store (List Session)
  unfolding call active_sessions
  fetch_active_engine_sessions imei chat_id = call (read_active imei chat_id)

  -- `UPDATE telegram_engine_sessions … WHERE id = $1`
  pub update_session : ℕ → (Session → Session) → List Session → List Session
  update_session id set [] = []
  update_session id set (row ∷ rows) =
      (if row.id == id then set row else row) ∷ update_session id set rows

  abbrev pub resolved : Instant → Session → Session
  resolved at s = record s { session_status = SessionStatus.finished; resolved_at = some at }

  abbrev pub reported : ℕ → Session → Session
  reported message_id s = record s { ride_status_message_id = some message_id }

  abbrev pub with_session : ℕ → (Session → Session) → Store → Unit {0} × Store
  with_session id set t = (tt, record t { sessions = update_session id set t.sessions })

  -- With the status "finished", the only one that it is called with.
  pub resolve_engine_session_at : ℕ → Instant → M Store (Unit {0})
  unfolding call update_session
  resolve_engine_session_at id at = call (with_session id (resolved at))

  pub set_engine_session_ride_status_message_id : ℕ → ℕ → M Store (Unit {0})
  unfolding call update_session
  set_engine_session_ride_status_message_id id message_id =
      call (with_session id (reported message_id))

  abbrev pub created : List ℕ → ℤ → ℕ → ℕ → Instant → Store → Unit {0} × Store
  created imei chat_id trigger_heartbeat_id prompt_message_id created_at t = (
    tt,
    record t {
      sessions =
          t.sessions
          ++ ((record {
            id = ids.session_id t.sessions;
            imei = imei;
            chat_id = chat_id;
            trigger_heartbeat_id = trigger_heartbeat_id;
            prompt_message_id = prompt_message_id;
            ride_status_message_id = none;
            session_status = SessionStatus.pending_confirmation;
            created_at = created_at;
            resolved_at = none;
          })
              ∷ []);
    },
  )

  pub create_engine_session : List ℕ → ℤ → ℕ → ℕ → Instant → M Store (Unit {0})
  unfolding call
  create_engine_session imei chat_id trigger_heartbeat_id prompt_message_id created_at =
      call (created imei chat_id trigger_heartbeat_id prompt_message_id created_at)

  -- `INSERT … ON CONFLICT (imei, chat_id) DO UPDATE`
  pub put_notification : NotificationState → List NotificationState → List NotificationState
  put_notification state [] = state ∷ []
  put_notification state (row ∷ rows) =
      if bytes_eq row.imei state.imei && eqb_ℤ row.chat_id state.chat_id
      then state ∷ rows
      else row ∷ put_notification state rows

  pub find_notification : List ℕ → ℤ → List NotificationState → Option NotificationState
  find_notification imei chat_id [] = none
  find_notification imei chat_id (row ∷ rows) =
      if bytes_eq row.imei imei && eqb_ℤ row.chat_id chat_id
      then some row
      else find_notification imei chat_id rows

  abbrev pub notified : NotificationState → Store → Unit {0} × Store
  notified state t = (tt, record t { notifications = put_notification state t.notifications })

  pub upsert_notification_state : List ℕ → ℤ → EngineNotice → ℕ → ℕ → M Store (Unit {0})
  unfolding call put_notification
  upsert_notification_state imei chat_id status message_id heartbeat_id = call (
      notified (record {
        imei = imei;
        chat_id = chat_id;
        last_status = status;
        last_message_id = message_id;
        last_heartbeat_id = heartbeat_id;
      }))

  abbrev pub read_notification : List ℕ → ℤ → Store → Option NotificationState × Store
  read_notification imei chat_id t = (find_notification imei chat_id t.notifications, t)

  pub fetch_notification_state : List ℕ → ℤ → M Store (Option NotificationState)
  unfolding call find_notification
  fetch_notification_state imei chat_id = call (read_notification imei chat_id)

  pub received_at : ℕ → List (StoredHeartbeat Instant) → Option Instant
  received_at id [] = none
  received_at id (row ∷ rows) =
      if row.id == id then some row.server_received_at else received_at id rows

  abbrev pub read_received_at : ℕ → Store → Option Instant × Store
  read_received_at id t = (received_at id t.heartbeats, t)

  pub fetch_heartbeat_server_received_at_by_id : ℕ → M Store (Option Instant)
  unfolding call received_at
  fetch_heartbeat_server_received_at_by_id id = call (read_received_at id)

  abbrev pub answered : ℤ → Text → Store → ℕ × Store
  answered chat_id text t =
      (ids.message_id t.sent, record t { sent = t.sent ++ ((chat_id, text) ∷ []) })

  pub send_message : ℤ → Text → M Store ℕ
  unfolding call
  send_message chat_id text = call (answered chat_id text)

  abbrev pub nothing : Store → Unit {0} × Store
  nothing t = (tt, t)

  -- A failure is logged and goes no further.
  pub attempt : M Store (Unit {0}) → M Store (Unit {0})
  attempt m e = (ok tt, (m e).1)

  -- Takes the buttons off a message, which nothing here depends on.
  pub clear_inline_keyboard : M Store (Unit {0})
  unfolding call attempt
  clear_inline_keyboard = attempt (call nothing)

  pub should_start_new_engine_on_session : Instant → Option Instant → Bool
  should_start_new_engine_on_session heartbeat_time none = true
  should_start_new_engine_on_session heartbeat_time (some previous) =
      leb_ℤ engine_on_alert_cooldown_secs (num_seconds heartbeat_time previous)

  pub should_finish_stale_engine_session : Instant → Instant → Bool
  should_finish_stale_engine_session reference_time latest_heartbeat_time =
      leb_ℤ stale_engine_session_timeout_secs (num_seconds reference_time latest_heartbeat_time)

  abbrev pub read_summary : List ℕ → Instant → Instant → Store → Option (RideSummary F) × Store
  read_summary imei started_at ended_at t =
      (ride_summary fl chrono P N imei started_at ended_at t.locations, t)
