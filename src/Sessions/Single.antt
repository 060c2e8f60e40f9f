-- ===== src/Sessions/Single.antt =====
-- At most one engine session per device and chat (src/bot.rs), whatever fails.
use gt06n_tcp_server.Prelude.{
  ℕ, ◌+◌, ◌≤◌, ◌≡◌, ◌⊎◌, inl, inr, refl, sym, ap, ◌∙◌, subst, arith, List, [], ◌∷◌, ◌++◌, length,
  All, Bool, true, false, not, if◌then◌else◌, Bool-cases, Option, none, some, Result, ok,
}
use gt06n_tcp_server.Prelude.Int.{ℤ, eq_of_parts}
use gt06n_tcp_server.Float.{Float64}
use gt06n_tcp_server.Chrono.{Chrono}
use gt06n_tcp_server.Effects.{M, Env, Failure, return, call_ok}
use gt06n_tcp_server.Effects.Keeps.{Keeps-call}
use gt06n_tcp_server.Effects.Follows.{after->>=, after-call, Follows}
use gt06n_tcp_server.Tracking.{bytes_eq_iff}
use gt06n_tcp_server.Sessions.{
  Ids, SessionStatus, EngineNotice, NotificationState, StoredHeartbeat, Text, same_notice,
  is_active, active_for, active_sessions, read_active, fetch_active_engine_sessions, created,
  create_engine_session, notified, upsert_notification_state, read_received_at,
  fetch_heartbeat_server_received_at_by_id, send_message, should_start_new_engine_on_session,
}
use gt06n_tcp_server.Sessions.Handling.{
  continued_message, finish_each, last_on_heartbeat_at, start_session, engine_on_at,
  process_engine_on_notification_for_chat,
}
use gt06n_tcp_server.Sessions.Fewer.{
  Inactive, active_at, active_count, active_count-Fewer, active_count-append,
  length-active_sessions, none_left,
}
use gt06n_tcp_server.Sessions.Ending.{
  S, Session, Ends, Ends-trans, calm, send_message-Ends, finish_each-Ends, finish_each-Inactive,
}

module _ (fl : Float64) (chrono : Chrono) (P N : Type 0) (ids : Ids (chrono.Instant))
    (now : chrono.Instant) where
  open chrono use {Instant}

  abbrev pub St : Type 0
  St = S fl chrono P N ids now

  abbrev pub count : List ℕ → ℤ → St → ℕ
  count imei chat t = active_count fl chrono P N ids now imei chat t.sessions

  -- No device has two active sessions in one chat.
  abbrev pub IsSingle : St → Type 0
  IsSingle t =
      (imei : List ℕ) (chat : ℤ)
      → length (active_sessions fl chrono P N ids now imei chat t.sessions) ≤ 1

  abbrev pub Sings : St → St → Type 0
  Sings t t' = Ends fl chrono P N ids now t t'

  abbrev pub Still : {A : Type 0} → M St A → Env St → Type 0
  Still m e = Follows Sings (Ends-trans fl chrono P N ids now) m e

  pub Ends-IsSingle : (t t' : St) → Sings t t' → IsSingle t → IsSingle t'
  Ends-IsSingle t t' h single imei chat =
      let a = length-active_sessions fl chrono P N ids now imei chat t.sessions in
      let b = length-active_sessions fl chrono P N ids now imei chat t'.sessions in
      let c = active_count-Fewer fl chrono P N ids now imei chat t.sessions t'.sessions h in
      let d = single imei chat in omega arith

  pub note-Ends :
      (imei : List ℕ) (chat : ℤ) (status : EngineNotice) (m id : ℕ) (e : Env St)
      → Still (upsert_notification_state fl chrono P N ids now imei chat status m id) e
  unfolding upsert_notification_state
  note-Ends imei chat status m id e =
      calm fl chrono P N ids now
        (notified fl chrono P N ids now (record {
          imei = imei;
          chat_id = chat;
          last_status = status;
          last_message_id = m;
          last_heartbeat_id = id;
        }))
        e (λ t. refl)

  -- The store in which a new session may begin.
  abbrev Ready : List ℕ → ℤ → St → Type 0
  Ready imei chat t = IsSingle t × (count imei chat t ≡ 0)

  Ends-Ready :
      (imei : List ℕ) (chat : ℤ) (t t' : St) → Sings t t' → Ready imei chat t → Ready imei chat t'
  Ends-Ready imei chat t t' h (single, none_) = (
    Ends-IsSingle t t' h single,
    (let c = active_count-Fewer fl chrono P N ids now imei chat t.sessions t'.sessions h in
        omega arith),
  )

  -- A step on the way there, when it succeeds.
  pub reached :
      {A : Type 0} (m : M St A) (e e₁ : Env St) {r : Result Failure A}
      → Still m e
      → m e ≡ (r, e₁)
      → Sings e.store e₁.store
  reached m e e₁ f h = subst (λ y. Sings e.store y.1.store) h f

  created-IsSingle :
      (imei : List ℕ) (chat : ℤ) (h m : ℕ) (at : Instant) (t : St)
      → Ready imei chat t
      → IsSingle (created fl chrono P N ids now imei chat h m at t).1
  unfolding active_for is_active
  created-IsSingle imei chat h m at t (single, zero_) imei' chat' =
      at_key (Bool-cases (active_at fl chrono P N ids now imei' chat' new))
    where
      new : Session fl chrono P N ids now
      new = record {
        id = ids.session_id t.sessions;
        imei = imei;
        chat_id = chat;
        trigger_heartbeat_id = h;
        prompt_message_id = m;
        ride_status_message_id = none;
        session_status = SessionStatus.pending_confirmation;
        created_at = at;
        resolved_at = none;
      }

      len :
          length (active_sessions fl chrono P N ids now imei' chat' (t.sessions ++ (new ∷ [])))
          ≡ count imei' chat' t + (if active_at fl chrono P N ids now imei' chat' new then 1 else 0)
      len =
          length-active_sessions fl chrono P N ids now imei' chat' (t.sessions ++ (new ∷ []))
          ∙ active_count-append fl chrono P N ids now imei' chat' t.sessions new

      at_key :
          (active_at fl chrono P N ids now imei' chat' new ≡ true)
            ⊎ (active_at fl chrono P N ids now imei' chat' new ≡ false)
          → length (active_sessions fl chrono P N ids now imei' chat' (t.sessions ++ (new ∷ [])))
            ≤ 1
      at_key (inl is) =
          let same_imei : imei ≡ imei' = (bytes_eq_iff imei imei').0 (ground (arith, is)) in
          let same_chat : chat ≡ chat' = eq_of_parts chat chat' (ground (arith, is)) in
          let none_ : count imei' chat' t ≡ 0 =
            sym (ap (λ i. count i chat t) same_imei ∙ ap (λ c. count imei' c t) same_chat)
            ∙ zero_ in
          ground (arith, len, is, none_)
      at_key (inr isnt) =
          let before_ = length-active_sessions fl chrono P N ids now imei' chat' t.sessions in
          let limit = single imei' chat' in ground (arith, len, isnt, before_, limit)

  create-IsSingle :
      (imei : List ℕ) (chat : ℤ) (h m : ℕ) (at : Instant) (e : Env St)
      → Ready imei chat e.store
      → IsSingle (create_engine_session fl chrono P N ids now imei chat h m at e).1.store
  unfolding create_engine_session
  create-IsSingle imei chat h m at e ready =
      after-call IsSingle (created fl chrono P N ids now imei chat h m at) e ready.0
        (created-IsSingle imei chat h m at e.store ready)

  pub finished-Ready :
      (imei : List ℕ) (chat : ℤ) (at : Instant) (alert : Bool)
      (sessions : List (Session fl chrono P N ids now)) (e e₁ : Env St) {n : Option ℕ}
      → sessions ≡ active_sessions fl chrono P N ids now imei chat e.store.sessions
      → finish_each fl chrono P N ids now chat imei at alert none sessions e ≡ (ok n, e₁)
      → count imei chat e₁.store ≡ 0
  finished-Ready imei chat at alert sessions e e₁ is h =
      none_left fl chrono P N ids now imei chat e.store.sessions e₁.store.sessions
        (reached (finish_each fl chrono P N ids now chat imei at alert none sessions) e e₁
          (finish_each-Ends fl chrono P N ids now chat imei at alert none sessions e) h)
        (subst (λ ss. All (λ s. Inactive fl chrono P N ids now s.id e₁.store.sessions) ss) is
          (finish_each-Inactive fl chrono P N ids now chat imei at alert none sessions e e₁ h))

  start_session-IsSingle :
      (h : StoredHeartbeat Instant) (chat : ℤ) (sessions : List (Session fl chrono P N ids now))
      (e : Env St)
      → sessions ≡ active_sessions fl chrono P N ids now h.imei chat e.store.sessions
      → IsSingle e.store
      → IsSingle (start_session fl chrono P N ids now h chat sessions e).1.store
  unfolding start_session
  start_session-IsSingle h chat sessions e is single =
      let finish =
        finish_each fl chrono P N ids now chat h.imei h.server_received_at false none sessions in
      let send = send_message fl chrono P N ids now chat Text.engine_on_confirmation in
      let ends =
        finish_each-Ends fl chrono P N ids now chat h.imei h.server_received_at false none sessions
          e in
      after->>= IsSingle finish _ e
        (λ x e₁ p. Ends-IsSingle e.store e₁.store (reached finish e e₁ ends p) single)
        (λ last e₁ p.
          let ready : Ready h.imei chat e₁.store = (
            Ends-IsSingle e.store e₁.store (reached finish e e₁ ends p) single,
            finished-Ready h.imei chat h.server_received_at false sessions e e₁ is p,
          ) in
          let sends = send_message-Ends fl chrono P N ids now chat Text.engine_on_confirmation e₁ in
          after->>= IsSingle send _ e₁
            (λ x e₂ q. Ends-IsSingle e₁.store e₂.store (reached send e₁ e₂ sends q) ready.0)
            (λ m e₂ q.
              let create =
                create_engine_session fl chrono P N ids now h.imei chat h.id m
                  h.server_received_at in
              let single₂ : IsSingle (create e₂).1.store =
                create-IsSingle h.imei chat h.id m h.server_received_at e₂
                  (Ends-Ready h.imei chat e₁.store e₂.store (reached send e₁ e₂ sends q) ready) in
              after->>= IsSingle create _ e₂ (λ x e₃ r. subst (λ y. IsSingle y.1.store) r single₂)
                (λ u e₃ r.
                  Ends-IsSingle e₃.store
                    (upsert_notification_state fl chrono P N ids now h.imei chat
                      EngineNotice.engine_on m h.id e₃).1.store
                    (note-Ends h.imei chat EngineNotice.engine_on m h.id e₃)
                    (subst (λ y. IsSingle y.1.store) r single₂))))

  pub last_on_heartbeat_at-reads :
      (existing : Option NotificationState) (e : Env St)
      → (last_on_heartbeat_at fl chrono P N ids now existing e).1.store ≡ e.store
  unfolding last_on_heartbeat_at fetch_heartbeat_server_received_at_by_id
  last_on_heartbeat_at-reads none e = refl
  last_on_heartbeat_at-reads (some state) e =
      at (same_notice state.last_status EngineNotice.engine_on)
    where
      at :
          (b : Bool)
          → ((if b
                then fetch_heartbeat_server_received_at_by_id fl chrono P N ids now
                    state.last_heartbeat_id
                else return none)
              e).1.store
            ≡ e.store
      at true =
          Keeps-call (λ t. t) (read_received_at fl chrono P N ids now state.last_heartbeat_id) e
            (λ t. refl)
      at false = refl

  engine_on_at-IsSingle :
      (h : StoredHeartbeat Instant) (chat : ℤ) (existing : Option NotificationState)
      (sessions : List (Session fl chrono P N ids now)) (last_on : Option Instant) (e : Env St)
      → sessions ≡ active_sessions fl chrono P N ids now h.imei chat e.store.sessions
      → IsSingle e.store
      → IsSingle (engine_on_at fl chrono P N ids now h chat existing sessions last_on e).1.store
  unfolding engine_on_at
  engine_on_at-IsSingle h chat existing sessions last_on e is single =
      at (
        not (should_start_new_engine_on_session fl chrono P N ids now h.server_received_at last_on))
    where
      m : ℕ
      m = continued_message fl chrono P N ids now sessions existing

      at :
          (b : Bool)
          → IsSingle
              ((if b
                  then upsert_notification_state fl chrono P N ids now h.imei chat
                      EngineNotice.engine_on m h.id
                  else start_session fl chrono P N ids now h chat sessions)
                e).1.store
      at true =
          Ends-IsSingle e.store
            (upsert_notification_state fl chrono P N ids now h.imei chat EngineNotice.engine_on m
              h.id e).1.store
            (note-Ends h.imei chat EngineNotice.engine_on m h.id e) single
      at false = start_session-IsSingle h chat sessions e is single

  pub fetch-reads :
      (imei : List ℕ) (chat : ℤ) (e : Env St)
      → (fetch_active_engine_sessions fl chrono P N ids now imei chat e).1.store ≡ e.store
  unfolding fetch_active_engine_sessions
  fetch-reads imei chat e =
      Keeps-call (λ t. t) (read_active fl chrono P N ids now imei chat) e (λ t. refl)

  pub fetch_ok :
      (imei : List ℕ) (chat : ℤ) (e e₁ : Env St) {ss : List (Session fl chrono P N ids now)}
      → fetch_active_engine_sessions fl chrono P N ids now imei chat e ≡ (ok ss, e₁)
      → ss ≡ active_sessions fl chrono P N ids now imei chat e₁.store.sessions
  unfolding fetch_active_engine_sessions
  fetch_ok imei chat e e₁ h =
      let q = call_ok (read_active fl chrono P N ids now imei chat) e h in
      sym (ap (λ y. y.0) q)
      ∙ ap (λ y. active_sessions fl chrono P N ids now imei chat (y.1).sessions) q

  pub process_engine_on-IsSingle :
      (h : StoredHeartbeat Instant) (chat : ℤ) (existing : Option NotificationState) (e : Env St)
      → IsSingle e.store
      → IsSingle
          (process_engine_on_notification_for_chat fl chrono P N ids now h chat existing e).1.store
  unfolding process_engine_on_notification_for_chat
  process_engine_on-IsSingle h chat existing e single =
      let fetch = fetch_active_engine_sessions fl chrono P N ids now h.imei chat in
      let read = last_on_heartbeat_at fl chrono P N ids now existing in
      after->>= IsSingle fetch _ e
        (λ x e₁ p.
          subst (λ y. IsSingle y.1.store) p
            (subst IsSingle (sym (fetch-reads h.imei chat e)) single))
        (λ sessions e₁ p.
          let single₁ : IsSingle e₁.store =
            subst (λ y. IsSingle y.1.store) p
              (subst IsSingle (sym (fetch-reads h.imei chat e)) single) in
          let is = fetch_ok h.imei chat e e₁ p in
          after->>= IsSingle read _ e₁
            (λ x e₂ q.
              subst (λ y. IsSingle y.1.store) q
                (subst IsSingle (sym (last_on_heartbeat_at-reads existing e₁)) single₁))
            (λ last_on e₂ q.
              let same : e₂.store ≡ e₁.store =
                subst (λ y. y.1.store ≡ e₁.store) q (last_on_heartbeat_at-reads existing e₁) in
              engine_on_at-IsSingle h chat existing sessions last_on e₂
                (is
                  ∙ ap (λ (t : St). active_sessions fl chrono P N ids now h.imei chat t.sessions)
                      (sym same))
                (subst IsSingle (sym same) single₁)))
