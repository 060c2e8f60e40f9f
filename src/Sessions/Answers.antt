-- ===== src/Sessions/Answers.antt =====
-- src/bot.rs: what else changes engine sessions: the answer to the prompt of a session, and the end of
-- sessions whose device has gone silent. `actions` are what the loop of `run` does one after another.
use gt06n_tcp_server.Prelude.{
  ℕ, List, [], ◌∷◌, ◌++◌, false, ◌&&◌, ◌||◌, not, ltb, ◌==◌, if◌then◌else◌, Option, none, some,
}
use gt06n_tcp_server.Prelude.Int.{ℤ, eqb_ℤ}
use gt06n_tcp_server.Float.{Float64}
use gt06n_tcp_server.Chrono.{Chrono}
use gt06n_tcp_server.Effects.{M, Env, ◌>>=◌, ◌>>◌, return, call}
use gt06n_tcp_server.Protocol.Framing.{bytes_eq}
use gt06n_tcp_server.Sessions.{
  Ids, SessionStatus, EngineNotice, StoredHeartbeat, Text, is_active, is_pending, Session, Store,
  insert_session, update_session, with_session, nothing, attempt, send_message,
  should_finish_stale_engine_session,
}
use gt06n_tcp_server.Sessions.Handling.{
  NotificationRecipient, finish_active_engine_sessions, finish_each, process_recipients,
}

pub data SessionAction : Type 0 where
  yes_safe no_theft : SessionAction

module _ (fl : Float64) (chrono : Chrono) (P N : Type 0) (ids : Ids (chrono.Instant))
    (now : chrono.Instant) where
  open chrono use {Instant}

  abbrev S : Type 0
  S = Store fl chrono P N ids now

  abbrev Ses : Type 0
  Ses = Session fl chrono P N ids now

  -- The one with the higher id.
  abbrev pub newer : Ses → Option Ses → Option Ses
  newer s none = some s
  newer s (some q) = if ltb q.id s.id then some s else some q

  -- `WHERE chat_id = $1 AND prompt_message_id = $2 ORDER BY id DESC LIMIT 1`
  unfoldable pub by_prompt : ℤ → ℕ → List Ses → Option Ses
  by_prompt chat_id prompt_message_id [] = none
  by_prompt chat_id prompt_message_id (s ∷ rows) =
      let rest = by_prompt chat_id prompt_message_id rows in
      if eqb_ℤ s.chat_id chat_id && s.prompt_message_id == prompt_message_id
      then newer s rest
      else rest

  abbrev pub read_by_prompt : ℤ → ℕ → S → Option Ses × S
  read_by_prompt chat_id prompt_message_id t = (by_prompt chat_id prompt_message_id t.sessions, t)

  unfoldable pub fetch_engine_session_by_prompt_message : ℤ → ℕ → M S (Option Ses)
  unfolding call by_prompt
  fetch_engine_session_by_prompt_message chat_id prompt_message_id =
      call (read_by_prompt chat_id prompt_message_id)

  abbrev pub with_status : SessionStatus → Ses → Ses
  with_status status s = record s { session_status = status }

  unfoldable pub update_engine_session_status : ℕ → SessionStatus → M S (Unit {0})
  unfolding call update_session
  update_engine_session_status id status =
      call (with_session fl chrono P N ids now id (with_status status))

  -- A call to Telegram whose answer is not used.
  unfoldable pub telegram_call : M S (Unit {0})
  unfolding call
  telegram_call = call (nothing fl chrono P N ids now)

  -- The status, the message before it and the sticker, whose failure is only logged.
  abbrev pub status_of : SessionAction → SessionStatus
  status_of SessionAction.yes_safe = SessionStatus.confirmed_safe
  status_of SessionAction.no_theft = SessionStatus.reported_theft

  abbrev pub text_of : SessionAction → Text
  text_of SessionAction.yes_safe = Text.ride_safe
  text_of SessionAction.no_theft = Text.theft_warning

  unfoldable pub confirm : ℤ → SessionAction → ℕ → M S (Unit {0})
  unfolding attempt telegram_call update_engine_session_status
  confirm chat_id action session_id = do
    telegram_call
    telegram_call
    message_id ← send_message fl chrono P N ids now chat_id (text_of action)
    attempt fl chrono P N ids now telegram_call
    update_engine_session_status session_id (status_of action)

  -- The guards before it, each of which only answers the query.
  unfoldable pub answer_found : ℤ → ℕ → SessionAction → Option Ses → M S (Unit {0})
  unfolding telegram_call confirm
  answer_found chat_id prompt_message_id action none = telegram_call
  answer_found chat_id prompt_message_id action (some session) =
      if not (eqb_ℤ session.chat_id chat_id) || not (session.prompt_message_id == prompt_message_id)
      then telegram_call
      else if not (is_pending session.session_status)
      then telegram_call
      else confirm chat_id action session.id

  -- `handle_callback_query` for a session, behind the check of the subscription.
  unfoldable pub answer_session : ℤ → ℕ → SessionAction → M S (Unit {0})
  unfolding fetch_engine_session_by_prompt_message answer_found
  answer_session chat_id prompt_message_id action =
      fetch_engine_session_by_prompt_message chat_id prompt_message_id
      >>= answer_found chat_id prompt_message_id action

  -- A group of sessions, by device and chat, and `entry(…).or_default().push(…)`.
  abbrev pub Group : Type 0
  Group = List ℕ × ℤ × List Ses

  pub push_session : Ses → List Group → List Group
  push_session s [] = (s.imei, s.chat_id, s ∷ []) ∷ []
  push_session s ((imei, chat_id, sessions) ∷ groups) =
      if bytes_eq s.imei imei && eqb_ℤ s.chat_id chat_id
      then (imei, chat_id, sessions ++ (s ∷ [])) ∷ groups
      else (imei, chat_id, sessions) ∷ push_session s groups

  pub group_sessions : List Group → List Ses → List Group
  unfolding push_session
  group_sessions groups [] = groups
  group_sessions groups (s ∷ sessions) = group_sessions (push_session s groups) sessions

  -- All active sessions, in the order of each group.
  pub all_active : List Ses → List Ses
  unfolding insert_session is_active
  all_active [] = []
  all_active (s ∷ rows) =
      let others = all_active rows in
      if is_active s.session_status then insert_session fl chrono P N ids now s others else others

  abbrev pub read_all_active : S → List Ses × S
  read_all_active t = (all_active t.sessions, t)

  unfoldable pub fetch_all_active_engine_sessions : M S (List Ses)
  unfolding call all_active
  fetch_all_active_engine_sessions = call read_all_active

  -- `WHERE imei = $1 ORDER BY id DESC LIMIT 1`
  abbrev later_beat :
      StoredHeartbeat Instant → Option (StoredHeartbeat Instant) → Option (StoredHeartbeat Instant)
  later_beat h none = some h
  later_beat h (some q) = if ltb q.id h.id then some h else some q

  pub latest_heartbeat : List ℕ → List (StoredHeartbeat Instant) → Option (StoredHeartbeat Instant)
  latest_heartbeat imei [] = none
  latest_heartbeat imei (h ∷ rows) =
      let rest = latest_heartbeat imei rows in
      if bytes_eq h.imei imei then later_beat h rest else rest

  abbrev pub read_latest_heartbeat : List ℕ → S → Option (StoredHeartbeat Instant) × S
  read_latest_heartbeat imei t = (latest_heartbeat imei t.heartbeats, t)

  unfoldable pub fetch_latest_heartbeat_for_imei : List ℕ → M S (Option (StoredHeartbeat Instant))
  unfolding call latest_heartbeat
  fetch_latest_heartbeat_for_imei imei = call (read_latest_heartbeat imei)

  -- The sessions of a group end if the device has been silent for long enough.
  unfoldable pub finish_stale : Instant → Group → Option (StoredHeartbeat Instant) → M S (Unit {0})
  unfolding finish_each
  finish_stale reference_time group none = return tt
  finish_stale reference_time (imei, chat_id, sessions) (some latest) =
      if not (
        should_finish_stale_engine_session fl chrono P N ids now reference_time
          latest.server_received_at)
      then return tt
      else finish_active_engine_sessions fl chrono P N ids now chat_id imei sessions
          latest.server_received_at false
        >>= λ last. return tt

  unfoldable pub stale_group : Instant → Group → M S (Unit {0})
  unfolding fetch_latest_heartbeat_for_imei finish_stale
  stale_group reference_time group =
      fetch_latest_heartbeat_for_imei group.0 >>= finish_stale reference_time group

  -- `for ((imei, chat_id), sessions) in session_groups`
  unfoldable pub stale_groups : Instant → List Group → M S (Unit {0})
  unfolding stale_group
  stale_groups reference_time [] = return tt
  stale_groups reference_time (group ∷ groups) =
      stale_group reference_time group >> stale_groups reference_time groups

  -- `in_order` is the order in which the map is gone through.
  unfoldable pub process_stale_engine_sessions :
      (List Group → List Group) → Instant → M S (Unit {0})
  unfolding fetch_all_active_engine_sessions group_sessions stale_groups
  process_stale_engine_sessions in_order reference_time =
      fetch_all_active_engine_sessions >>= λ sessions.
      stale_groups reference_time (in_order (group_sessions [] sessions))

  -- What the bot does in one go, as far as sessions are concerned.
  pub data Action : Type 0 where
    heartbeat_came : StoredHeartbeat Instant → EngineNotice → List NotificationRecipient → Action
    prompt_answered : ℤ → ℕ → SessionAction → Action
    sessions_checked : (List Group → List Group) → Instant → Action

  unfoldable pub perform : Action → M S (Unit {0})
  unfolding process_recipients answer_session process_stale_engine_sessions
  perform (heartbeat_came h status recipients) =
      process_recipients fl chrono P N ids now h status recipients
  perform (prompt_answered chat_id prompt_message_id action) =
      answer_session chat_id prompt_message_id action
  perform (sessions_checked in_order reference_time) =
      process_stale_engine_sessions in_order reference_time

  -- One after another, as the loop of `run` goes on after a failure.
  unfoldable pub run : List Action → Env S → Env S
  unfolding perform
  run [] e = e
  run (action ∷ actions) e = run actions (perform action e).1
