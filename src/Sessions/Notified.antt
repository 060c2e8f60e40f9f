-- ===== src/Sessions/Notified.antt =====
-- What a heartbeat makes of the engine sessions of its recipients (src/bot.rs).
use gt06n_tcp_server.Prelude.{
  ℕ, ◌≡◌, refl, sym, ap, ◌∙◌, subst, arith, List, [], ◌∷◌, length, Bool, true, false, if◌then◌else◌,
  Option, none, some, ok,
}
use gt06n_tcp_server.Prelude.Int.{ℤ}
use gt06n_tcp_server.Float.{Float64}
use gt06n_tcp_server.Chrono.{Chrono}
use gt06n_tcp_server.Effects.{M, Env, ◌>>=◌, ◌>>◌, call_ok}
use gt06n_tcp_server.Effects.Keeps.{Keeps-call}
use gt06n_tcp_server.Effects.Follows.{after->>=, within->>=, Follows, Follows->>=}
use gt06n_tcp_server.Sessions.{
  Ids, EngineNotice, NotificationState, StoredHeartbeat, Text, same_notice, active_sessions,
  fetch_active_engine_sessions, upsert_notification_state, read_notification,
  fetch_notification_state, find_notification, send_message, attempt,
}
use gt06n_tcp_server.Sessions.Handling.{
  NotificationRecipient, finish_each, finish_inactive_subscription_sessions, already, message_for,
  engine_off_notice, by_status, process_heartbeat_notification_for_chat, tell_inactive,
  process_inactive_subscription_notification_for_chat, process_recipient, process_recipients,
}
use gt06n_tcp_server.Sessions.Fewer.{active_count-Fewer, length-active_sessions}
use gt06n_tcp_server.Sessions.Ending.{
  Ends, Ends-refl, Ends-trans, send_message-Ends, finish_each-Ends, finish_silently-Ends,
}
use gt06n_tcp_server.Sessions.Single.{
  IsSingle, St, count, Ends-IsSingle, note-Ends, reached, finished-Ready, fetch-reads, fetch_ok,
  process_engine_on-IsSingle,
}

module _ (fl : Float64) (chrono : Chrono) (P N : Type 0) (ids : Ids (chrono.Instant))
    (now : chrono.Instant) where
  open chrono use {Instant}

  abbrev S : Type 0
  S = St fl chrono P N ids now

  abbrev Ends_ : {A : Type 0} → M S A → Env S → Type 0
  Ends_ m e = Follows (Ends fl chrono P N ids now) (Ends-trans fl chrono P N ids now) m e

  abbrev chain :
      {A C : Type 0} (m : M S A) (k : A → M S C) (e : Env S)
      → Ends_ m e
      → ((a : A) (e₁ : Env S) → m e ≡ (ok a, e₁) → Ends_ (k a) e₁)
      → Ends_ (m >>= k) e
  chain m k e h rest =
      Follows->>= (Ends fl chrono P N ids now) (Ends-trans fl chrono P N ids now) m k e h rest

  pub fetch-Ends :
      (imei : List ℕ) (chat : ℤ) (e : Env S)
      → Ends_ (fetch_active_engine_sessions fl chrono P N ids now imei chat) e
  fetch-Ends imei chat e =
      subst (λ (t : S). Ends fl chrono P N ids now e.store t)
        (sym (fetch-reads fl chrono P N ids now imei chat e))
        (Ends-refl fl chrono P N ids now e.store)

  fetch_notification-reads :
      (imei : List ℕ) (chat : ℤ) (e : Env S)
      → (fetch_notification_state fl chrono P N ids now imei chat e).1.store ≡ e.store
  unfolding fetch_notification_state
  fetch_notification-reads imei chat e =
      Keeps-call (λ t. t) (read_notification fl chrono P N ids now imei chat) e (λ t. refl)

  message_for-Ends :
      (chat : ℤ) (text : Text) (last : Option ℕ) (e : Env S)
      → Ends_ (message_for fl chrono P N ids now chat text last) e
  unfolding message_for
  message_for-Ends chat text none e = send_message-Ends fl chrono P N ids now chat text e
  message_for-Ends chat text (some m) e = Ends-refl fl chrono P N ids now e.store

  pub engine_off_notice-Ends :
      (h : StoredHeartbeat Instant) (chat : ℤ) (existing : Option NotificationState) (e : Env S)
      → Ends_ (engine_off_notice fl chrono P N ids now h chat existing) e
  unfolding engine_off_notice
  engine_off_notice-Ends h chat (some state) e =
      note-Ends fl chrono P N ids now h.imei chat EngineNotice.engine_off state.last_message_id h.id
        e
  engine_off_notice-Ends h chat none e =
      chain (fetch_active_engine_sessions fl chrono P N ids now h.imei chat) _ e
        (fetch-Ends h.imei chat e)
        (λ ss e₁ h₁.
          chain (finish_each fl chrono P N ids now chat h.imei h.server_received_at true none ss) _
            e₁
            (finish_each-Ends fl chrono P N ids now chat h.imei h.server_received_at true none ss
              e₁)
            (λ last e₂ h₂.
              chain
                (message_for fl chrono P N ids now chat (Text.engine_status EngineNotice.engine_off)
                  last)
                _ e₂ (message_for-Ends chat (Text.engine_status EngineNotice.engine_off) last e₂)
                (λ m e₃ h₃.
                  note-Ends fl chrono P N ids now h.imei chat EngineNotice.engine_off m h.id e₃)))

  tell_inactive-Ends :
      (h : StoredHeartbeat Instant) (status : EngineNotice) (chat : ℤ)
      (existing : Option NotificationState) (e : Env S)
      → Ends_ (tell_inactive fl chrono P N ids now h status chat existing) e
  unfolding tell_inactive
  tell_inactive-Ends h status chat (some state) e =
      note-Ends fl chrono P N ids now h.imei chat status state.last_message_id h.id e
  tell_inactive-Ends h status chat none e =
      chain (send_message fl chrono P N ids now chat (Text.inactive_subscription status)) _ e
        (send_message-Ends fl chrono P N ids now chat (Text.inactive_subscription status) e)
        (λ m e₁ h₁. note-Ends fl chrono P N ids now h.imei chat status m h.id e₁)

  pub process_inactive-Ends :
      (h : StoredHeartbeat Instant) (status : EngineNotice) (chat : ℤ) (e : Env S)
      → Ends_
          (process_inactive_subscription_notification_for_chat fl chrono P N ids now h status chat)
          e
  unfolding process_inactive_subscription_notification_for_chat
  process_inactive-Ends h status chat e =
      chain (fetch_notification_state fl chrono P N ids now h.imei chat) _ e
        (subst (λ (t : S). Ends fl chrono P N ids now e.store t)
          (sym (fetch_notification-reads h.imei chat e)) (Ends-refl fl chrono P N ids now e.store))
        (λ existing e₁ h₁.
          tell_inactive-Ends h status chat (already fl chrono P N ids now status existing) e₁)

  pub finish_inactive-Ends :
      (imei : List ℕ) (chat : ℤ) (at : Instant) (e : Env S)
      → Ends_ (finish_inactive_subscription_sessions fl chrono P N ids now imei chat at) e
  unfolding finish_inactive_subscription_sessions
  finish_inactive-Ends imei chat at e =
      chain (fetch_active_engine_sessions fl chrono P N ids now imei chat) _ e
        (fetch-Ends imei chat e) (λ ss e₁ h₁. finish_silently-Ends fl chrono P N ids now at ss e₁)

  abbrev Single : S → Type 0
  Single t = IsSingle fl chrono P N ids now t

  process_heartbeat-IsSingle :
      (h : StoredHeartbeat Instant) (status : EngineNotice) (chat : ℤ) (e : Env S)
      → Single e.store
      → Single
          (process_heartbeat_notification_for_chat fl chrono P N ids now h status chat e).1.store
  unfolding process_heartbeat_notification_for_chat by_status
  process_heartbeat-IsSingle h status chat e single =
      let fetch = fetch_notification_state fl chrono P N ids now h.imei chat in
      let still = subst Single (sym (fetch_notification-reads h.imei chat e)) single in
      after->>= Single fetch (by_status fl chrono P N ids now h status chat) e
        (λ x e₁ p. subst (λ y. Single y.1.store) p still)
        (λ existing e₁ p. at status existing e₁ (subst (λ y. Single y.1.store) p still))
    where
      at :
          (status : EngineNotice) (existing : Option NotificationState) (e₁ : Env S)
          → Single e₁.store
          → Single (by_status fl chrono P N ids now h status chat existing e₁).1.store
      at EngineNotice.engine_on existing e₁ s =
          process_engine_on-IsSingle fl chrono P N ids now h chat existing e₁ s
      at EngineNotice.engine_off existing e₁ s =
          let off = already fl chrono P N ids now EngineNotice.engine_off existing in
          Ends-IsSingle fl chrono P N ids now e₁.store
            (engine_off_notice fl chrono P N ids now h chat off e₁).1.store
            (engine_off_notice-Ends h chat off e₁) s

  process_recipient-IsSingle :
      (h : StoredHeartbeat Instant) (status : EngineNotice) (r : NotificationRecipient) (e : Env S)
      → Single e.store
      → Single (process_recipient fl chrono P N ids now h status r e).1.store
  unfolding process_recipient attempt
  process_recipient-IsSingle h status r e single =
      at r.has_active_subscription (same_notice status EngineNotice.engine_off)
    where
      tell : M S (Unit {0})
      tell =
          process_inactive_subscription_notification_for_chat fl chrono P N ids now h status
            r.chat_id

      told : Env S
      told = (tell e).1

      told-Single : Single told.store
      told-Single =
          Ends-IsSingle fl chrono P N ids now e.store told.store
            (process_inactive-Ends h status r.chat_id e) single

      at :
          (a b : Bool)
          → Single
              ((if a
                  then attempt fl chrono P N ids now (
                      process_heartbeat_notification_for_chat fl chrono P N ids now h status
                        r.chat_id)
                  else if b
                  then attempt fl chrono P N ids now tell
                    >> finish_inactive_subscription_sessions fl chrono P N ids now h.imei r.chat_id
                        h.server_received_at
                  else attempt fl chrono P N ids now tell)
                e).1.store
      at true b = process_heartbeat-IsSingle h status r.chat_id e single
      at false true =
          Ends-IsSingle fl chrono P N ids now told.store
            (finish_inactive_subscription_sessions fl chrono P N ids now h.imei r.chat_id
              h.server_received_at told).1.store
            (finish_inactive-Ends h.imei r.chat_id h.server_received_at told) told-Single
      at false false = told-Single

  -- Whatever heartbeat is processed for whatever recipients, and whichever calls to the database or to
  -- Telegram fail on the way: if no device had two active engine sessions in one chat, none has
  -- afterwards. There is no transaction that would ensure it.
  pub process_recipients-IsSingle :
      (h : StoredHeartbeat Instant) (status : EngineNotice)
      (recipients : List NotificationRecipient) (e : Env (St fl chrono P N ids now))
      → IsSingle fl chrono P N ids now e.store
      → IsSingle fl chrono P N ids now
          (process_recipients fl chrono P N ids now h status recipients e).1.store
  unfolding process_recipients
  process_recipients-IsSingle h status [] e single = single
  process_recipients-IsSingle h status (r ∷ recipients) e single =
      let one = process_recipient fl chrono P N ids now h status r in
      let first = process_recipient-IsSingle h status r e single in
      after->>= Single one (λ _. process_recipients fl chrono P N ids now h status recipients) e
        (λ x e₁ p. subst (λ y. Single y.1.store) p first)
        (λ a e₁ p.
          process_recipients-IsSingle h status recipients e₁
            (subst (λ y. Single y.1.store) p first))

  empty_of_length : {A : Type 0} (xs : List A) → length xs ≡ 0 → xs ≡ []
  empty_of_length [] h = refl
  empty_of_length (x ∷ xs) h = ground arith

  engine_off_notice-ends :
      (h : StoredHeartbeat Instant) (chat : ℤ) (e e' : Env S)
      → engine_off_notice fl chrono P N ids now h chat none e ≡ (ok tt, e')
      → count fl chrono P N ids now h.imei chat e'.store ≡ 0
  unfolding engine_off_notice
  engine_off_notice-ends h chat e e' k =
      within->>= (fetch_active_engine_sessions fl chrono P N ids now h.imei chat) _ e k
        (λ ss e₁ h₁ k₁.
          let finish =
            finish_each fl chrono P N ids now chat h.imei h.server_received_at true none ss in
          within->>= finish _ e₁ k₁ (λ last e₂ h₂ k₂.
            let none_ =
              finished-Ready fl chrono P N ids now h.imei chat h.server_received_at true ss e₁ e₂
                (fetch_ok fl chrono P N ids now h.imei chat e e₁ h₁) h₂ in
            let text = Text.engine_status EngineNotice.engine_off in
            let say = message_for fl chrono P N ids now chat text last in
            let write = λ (m : ℕ).
              upsert_notification_state fl chrono P N ids now h.imei chat EngineNotice.engine_off m
                h.id in
            let ends =
              reached fl chrono P N ids now (say >>= write) e₂ e'
                (chain say write e₂ (message_for-Ends chat text last e₂) (λ m e₃ q.
                  note-Ends fl chrono P N ids now h.imei chat EngineNotice.engine_off m h.id e₃))
                k₂ in
            let less =
              active_count-Fewer fl chrono P N ids now h.imei chat e₂.store.sessions
                e'.store.sessions ends in
            omega arith))

  -- When the engine goes off and every call succeeds, every active engine session of the device in the
  -- chat is ended, however many there were: none is left. The condition is that the chat was not told
  -- before that the engine is off.
  pub process_heartbeat_notification_for_chat-off :
      (h : StoredHeartbeat Instant) (chat : ℤ) (e e' : Env (St fl chrono P N ids now))
      → already fl chrono P N ids now EngineNotice.engine_off
          (find_notification fl chrono P N ids now h.imei chat e.store.notifications)
        ≡ none
      → process_heartbeat_notification_for_chat fl chrono P N ids now h EngineNotice.engine_off chat
          e
        ≡ (ok tt, e')
      → active_sessions fl chrono P N ids now h.imei chat e'.store.sessions ≡ []
  unfolding process_heartbeat_notification_for_chat by_status fetch_notification_state
  process_heartbeat_notification_for_chat-off h chat e e' fresh k =
      let fetch = fetch_notification_state fl chrono P N ids now h.imei chat in
      within->>= fetch (by_status fl chrono P N ids now h EngineNotice.engine_off chat) e k
        (λ existing e₁ h₁ k₁.
          let found =
            ap (λ y. y.0) (call_ok (read_notification fl chrono P N ids now h.imei chat) e h₁) in
          let none_ : already fl chrono P N ids now EngineNotice.engine_off existing ≡ none =
            sym (ap (already fl chrono P N ids now EngineNotice.engine_off) found) ∙ fresh in
          let zero_ =
            engine_off_notice-ends h chat e₁ e'
              (sym (ap (λ x. engine_off_notice fl chrono P N ids now h chat x e₁) none_) ∙ k₁) in
          empty_of_length (active_sessions fl chrono P N ids now h.imei chat e'.store.sessions)
            (length-active_sessions fl chrono P N ids now h.imei chat e'.store.sessions ∙ zero_))
