-- ===== src/Sessions/Numbered.antt =====
-- A heartbeat (src/bot.rs) keeps the ids of sessions unique.
use gt06n_tcp_server.Prelude.{
  ℕ, ◌<◌, ◌≡◌, refl, sym, subst, List, [], ◌∷◌, All, Bool, true, false, not, if◌then◌else◌, Option,
  none, ok,
}
use gt06n_tcp_server.Prelude.Int.{ℤ}
use gt06n_tcp_server.Float.{Float64}
use gt06n_tcp_server.Chrono.{Chrono}
use gt06n_tcp_server.Effects.{M, Env, ◌>>=◌, ◌>>◌}
use gt06n_tcp_server.Effects.Keeps.{Keeps-call}
use gt06n_tcp_server.Effects.Follows.{Follows, Follows-call, Follows->>=}
use gt06n_tcp_server.Sessions.{
  Ids, EngineNotice, NotificationState, StoredHeartbeat, Text, same_notice,
  fetch_active_engine_sessions, created, create_engine_session, upsert_notification_state,
  read_notification, fetch_notification_state, send_message, attempt,
  should_start_new_engine_on_session,
}
use gt06n_tcp_server.Sessions.Handling.{
  NotificationRecipient, continued_message, finish_each, finish_inactive_subscription_sessions,
  last_on_heartbeat_at, start_session, engine_on_at, process_engine_on_notification_for_chat,
  already, engine_off_notice, by_status, process_heartbeat_notification_for_chat,
  process_inactive_subscription_notification_for_chat, process_recipient, process_recipients,
}
use gt06n_tcp_server.Sessions.Fewer.{Ses}
use gt06n_tcp_server.Sessions.Ending.{Session, Ends, send_message-Ends, finish_each-Ends}
use gt06n_tcp_server.Sessions.Single.{St, Still, note-Ends, last_on_heartbeat_at-reads}
use gt06n_tcp_server.Sessions.Notified.{
  fetch-Ends, engine_off_notice-Ends, process_inactive-Ends, finish_inactive-Ends,
}
use gt06n_tcp_server.Sessions.Unique.{IsUnique, IsUnique-Fewer, IsUnique-append}

module _ (fl : Float64) (chrono : Chrono) (P N : Type 0) (ids : Ids (chrono.Instant))
    (now : chrono.Instant) where
  open chrono use {Instant}

  abbrev S : Type 0
  S = St fl chrono P N ids now

  -- New sessions get ids above those there are.
  abbrev pub IsFresh : Type 0
  IsFresh =
      (rows : List (Ses fl chrono P N ids now))
      → All (λ (r : Ses fl chrono P N ids now). r.id < ids.session_id rows) rows

  abbrev pub Numbers : S → S → Type 0
  Numbers t t' =
      IsUnique fl chrono P N ids now t.sessions → IsUnique fl chrono P N ids now t'.sessions

  pub Numbers-trans : (a b c : S) → Numbers a b → Numbers b c → Numbers a c
  Numbers-trans a b c h k u = k (h u)

  abbrev pub Counts : {A : Type 0} → M S A → Env S → Type 0
  Counts m e = Follows Numbers Numbers-trans m e

  abbrev link :
      {A C : Type 0} (m : M S A) (k : A → M S C) (e : Env S)
      → Counts m e
      → ((a : A) (e₁ : Env S) → m e ≡ (ok a, e₁) → Counts (k a) e₁)
      → Counts (m >>= k) e
  link m k e h rest = Follows->>= Numbers Numbers-trans m k e h rest

  pub Ends-Numbers : (t t' : S) → Ends fl chrono P N ids now t t' → Numbers t t'
  Ends-Numbers t t' h u = IsUnique-Fewer fl chrono P N ids now t.sessions t'.sessions h u

  pub ends : {A : Type 0} (m : M S A) (e : Env S) → Still fl chrono P N ids now m e → Counts m e
  ends m e h = Ends-Numbers e.store (m e).1.store h

  reads : {A : Type 0} (m : M S A) (e : Env S) → (m e).1.store ≡ e.store → Counts m e
  reads m e h u = subst (λ (t : S). IsUnique fl chrono P N ids now t.sessions) (sym h) u

  create-Counts :
      (fresh : IsFresh) (imei : List ℕ) (chat : ℤ) (h m : ℕ) (at : Instant) (e : Env S)
      → Counts (create_engine_session fl chrono P N ids now imei chat h m at) e
  unfolding create_engine_session
  create-Counts fresh imei chat h m at e =
      Follows-call Numbers Numbers-trans (created fl chrono P N ids now imei chat h m at) e
        (λ t u. u) (λ t u. IsUnique-append fl chrono P N ids now t.sessions _ u (fresh t.sessions))

  start_session-Counts :
      (fresh : IsFresh) (h : StoredHeartbeat Instant) (chat : ℤ)
      (ss : List (Session fl chrono P N ids now)) (e : Env S)
      → Counts (start_session fl chrono P N ids now h chat ss) e
  unfolding start_session
  start_session-Counts fresh h chat ss e =
      let finish =
        finish_each fl chrono P N ids now chat h.imei h.server_received_at false none ss in
      let send = send_message fl chrono P N ids now chat Text.engine_on_confirmation in
      link finish _ e
        (ends finish e
          (finish_each-Ends fl chrono P N ids now chat h.imei h.server_received_at false none ss e))
        (λ last e₁ p.
          link send _ e₁
            (ends send e₁
              (send_message-Ends fl chrono P N ids now chat Text.engine_on_confirmation e₁))
            (λ m e₂ q.
              link
                (create_engine_session fl chrono P N ids now h.imei chat h.id m
                  h.server_received_at)
                _ e₂ (create-Counts fresh h.imei chat h.id m h.server_received_at e₂)
                (λ u e₃ r.
                  ends
                    (upsert_notification_state fl chrono P N ids now h.imei chat
                      EngineNotice.engine_on m h.id)
                    e₃
                    (note-Ends fl chrono P N ids now h.imei chat EngineNotice.engine_on m h.id
                      e₃))))

  engine_on_at-Counts :
      (fresh : IsFresh) (h : StoredHeartbeat Instant) (chat : ℤ)
      (existing : Option NotificationState) (ss : List (Session fl chrono P N ids now))
      (last_on : Option Instant) (e : Env S)
      → Counts (engine_on_at fl chrono P N ids now h chat existing ss last_on) e
  unfolding engine_on_at
  engine_on_at-Counts fresh h chat existing ss last_on e =
      at (
        not (should_start_new_engine_on_session fl chrono P N ids now h.server_received_at last_on))
    where
      note : M S (Unit {0})
      note =
          upsert_notification_state fl chrono P N ids now h.imei chat EngineNotice.engine_on
            (continued_message fl chrono P N ids now ss existing) h.id

      at : (b : Bool) → Counts (if b then note else start_session fl chrono P N ids now h chat ss) e
      at true = ends note e (
          note-Ends fl chrono P N ids now h.imei chat EngineNotice.engine_on
            (continued_message fl chrono P N ids now ss existing) h.id e)
      at false = start_session-Counts fresh h chat ss e

  by_status-Counts :
      (fresh : IsFresh) (h : StoredHeartbeat Instant) (status : EngineNotice) (chat : ℤ)
      (existing : Option NotificationState) (e : Env S)
      → Counts (by_status fl chrono P N ids now h status chat existing) e
  unfolding by_status process_engine_on_notification_for_chat
  by_status-Counts fresh h EngineNotice.engine_off chat existing e =
      let off = already fl chrono P N ids now EngineNotice.engine_off existing in
      ends (engine_off_notice fl chrono P N ids now h chat off) e
        (engine_off_notice-Ends fl chrono P N ids now h chat off e)
  by_status-Counts fresh h EngineNotice.engine_on chat existing e =
      let fetch = fetch_active_engine_sessions fl chrono P N ids now h.imei chat in
      let read = last_on_heartbeat_at fl chrono P N ids now existing in
      link fetch _ e (ends fetch e (fetch-Ends fl chrono P N ids now h.imei chat e)) (λ ss e₁ p.
        link read _ e₁
          (reads read e₁ (last_on_heartbeat_at-reads fl chrono P N ids now existing e₁))
          (λ last_on e₂ q. engine_on_at-Counts fresh h chat existing ss last_on e₂))

  process_heartbeat-Counts :
      (fresh : IsFresh) (h : StoredHeartbeat Instant) (status : EngineNotice) (chat : ℤ) (e : Env S)
      → Counts (process_heartbeat_notification_for_chat fl chrono P N ids now h status chat) e
  unfolding process_heartbeat_notification_for_chat fetch_notification_state
  process_heartbeat-Counts fresh h status chat e =
      let fetch = fetch_notification_state fl chrono P N ids now h.imei chat in
      link fetch (by_status fl chrono P N ids now h status chat) e
        (reads fetch e
          (Keeps-call (λ t. t) (read_notification fl chrono P N ids now h.imei chat) e (λ t. refl)))
        (λ existing e₁ p. by_status-Counts fresh h status chat existing e₁)

  process_recipient-Counts :
      (fresh : IsFresh) (h : StoredHeartbeat Instant) (status : EngineNotice)
      (r : NotificationRecipient) (e : Env S)
      → Counts (process_recipient fl chrono P N ids now h status r) e
  unfolding process_recipient attempt
  process_recipient-Counts fresh h status r e =
      at r.has_active_subscription (same_notice status EngineNotice.engine_off)
    where
      tell : M S (Unit {0})
      tell =
          process_inactive_subscription_notification_for_chat fl chrono P N ids now h status
            r.chat_id

      finish : M S (Unit {0})
      finish =
          finish_inactive_subscription_sessions fl chrono P N ids now h.imei r.chat_id
            h.server_received_at

      told : Counts tell e
      told = ends tell e (process_inactive-Ends fl chrono P N ids now h status r.chat_id e)

      at :
          (a b : Bool)
          → Counts
              (if a
                then attempt fl chrono P N ids now (
                    process_heartbeat_notification_for_chat fl chrono P N ids now h status
                      r.chat_id)
                else if b
                then attempt fl chrono P N ids now tell >> finish
                else attempt fl chrono P N ids now tell)
              e
      at true b = process_heartbeat-Counts fresh h status r.chat_id e
      at false true = λ u.
          ends finish (tell e).1
            (finish_inactive-Ends fl chrono P N ids now h.imei r.chat_id h.server_received_at
              (tell e).1)
            (told u)
      at false false = told

  pub process_recipients-Counts :
      (fresh : IsFresh) (h : StoredHeartbeat Instant) (status : EngineNotice)
      (rs : List NotificationRecipient) (e : Env S)
      → Counts (process_recipients fl chrono P N ids now h status rs) e
  unfolding process_recipients
  process_recipients-Counts fresh h status [] e = λ u. u
  process_recipients-Counts fresh h status (r ∷ rs) e =
      link (process_recipient fl chrono P N ids now h status r)
        (λ _. process_recipients fl chrono P N ids now h status rs) e
        (process_recipient-Counts fresh h status r e)
        (λ a e₁ p. process_recipients-Counts fresh h status rs e₁)
