-- ===== src/Sessions/Reachable.antt =====
-- The engine sessions that the loop of the bot (`run` of src/bot.rs) can lead to.
use gt06n_tcp_server.Prelude.{
  ℕ, ◌≡◌, refl, sym, ap, ◌∙◌, subst, List, [], ◌∷◌, Bool, true, false, ◌||◌, ◌==◌, not,
  if◌then◌else◌, Option, none, some, ok,
}
use gt06n_tcp_server.Prelude.Int.{ℤ, eqb_ℤ}
use gt06n_tcp_server.Float.{Float64}
use gt06n_tcp_server.Chrono.{Chrono}
use gt06n_tcp_server.Effects.{M, Env, ◌>>=◌, return, call, call_ok}
use gt06n_tcp_server.Effects.Keeps.{Keeps-call}
use gt06n_tcp_server.Effects.Follows.{after-call, Follows->>=}
use gt06n_tcp_server.Sessions.{
  Ids, SessionStatus, StoredHeartbeat, is_pending, answered, nothing, with_session, send_message,
  attempt, should_finish_stale_engine_session, EngineSession,
}
use gt06n_tcp_server.Sessions.Handling.{finish_each}
use gt06n_tcp_server.Sessions.Answers.{
  SessionAction, Group, by_prompt, read_by_prompt, fetch_engine_session_by_prompt_message,
  with_status, update_engine_session_status, telegram_call, status_of, text_of, confirm,
  answer_found, answer_session, read_latest_heartbeat, fetch_latest_heartbeat_for_imei,
  finish_stale, stale_group, stale_groups, read_all_active, fetch_all_active_engine_sessions,
  group_sessions, process_stale_engine_sessions, Action, heartbeat_came, prompt_answered,
  sessions_checked, perform, run,
}
use gt06n_tcp_server.Sessions.Ending.{
  Ends, Ends-refl, Ends-trans, calm, send_message-Ends, finish_each-Ends,
}
use gt06n_tcp_server.Sessions.Single.{IsSingle, St, Still, Ends-IsSingle}
use gt06n_tcp_server.Sessions.Notified.{process_recipients-IsSingle}
use gt06n_tcp_server.Sessions.Numbered.{IsFresh, Ends-Numbers, process_recipients-Counts}
use gt06n_tcp_server.Sessions.Unique.{IsUnique, Fewer-found}

module _ (fl : Float64) (chrono : Chrono) (P N : Type 0) (ids : Ids (chrono.Instant))
    (now : chrono.Instant) where
  open chrono use {Instant}

  abbrev S : Type 0
  S = St fl chrono P N ids now

  abbrev Ends_ : {A : Type 0} → M S A → Env S → Type 0
  Ends_ m e = Still fl chrono P N ids now m e

  abbrev chain :
      {A C : Type 0} (m : M S A) (k : A → M S C) (e : Env S)
      → Ends_ m e
      → ((a : A) (e₁ : Env S) → m e ≡ (ok a, e₁) → Ends_ (k a) e₁)
      → Ends_ (m >>= k) e
  chain m k e h rest =
      Follows->>= (Ends fl chrono P N ids now) (Ends-trans fl chrono P N ids now) m k e h rest

  telegram_call-Ends : (e : Env S) → Ends_ (telegram_call fl chrono P N ids now) e
  unfolding telegram_call
  telegram_call-Ends e = calm fl chrono P N ids now (nothing fl chrono P N ids now) e (λ t. refl)

  finish_stale-Ends :
      (at : Instant) (group : Group fl chrono P N ids now) (h : Option (StoredHeartbeat Instant))
      (e : Env S)
      → Ends_ (finish_stale fl chrono P N ids now at group h) e
  unfolding finish_stale
  finish_stale-Ends at group none e = Ends-refl fl chrono P N ids now e.store
  finish_stale-Ends at (imei, chat, sessions) (some h) e =
      go (not (should_finish_stale_engine_session fl chrono P N ids now at h.server_received_at))
    where
      finish : M S (Option ℕ)
      finish = finish_each fl chrono P N ids now chat imei h.server_received_at false none sessions

      go : (b : Bool) → Ends_ (if b then return tt else (finish >>= λ last. return tt)) e
      go true = Ends-refl fl chrono P N ids now e.store
      go false =
          chain finish (λ last. return tt) e
            (finish_each-Ends fl chrono P N ids now chat imei h.server_received_at false none
              sessions e)
            (λ last e₁ p. Ends-refl fl chrono P N ids now e₁.store)

  stale_groups-Ends :
      (at : Instant) (groups : List (Group fl chrono P N ids now)) (e : Env S)
      → Ends_ (stale_groups fl chrono P N ids now at groups) e
  unfolding stale_groups stale_group fetch_latest_heartbeat_for_imei
  stale_groups-Ends at [] e = Ends-refl fl chrono P N ids now e.store
  stale_groups-Ends at (group ∷ groups) e =
      chain (stale_group fl chrono P N ids now at group)
        (λ _. stale_groups fl chrono P N ids now at groups) e
        (chain (fetch_latest_heartbeat_for_imei fl chrono P N ids now group.0)
          (finish_stale fl chrono P N ids now at group) e
          (calm fl chrono P N ids now (read_latest_heartbeat fl chrono P N ids now group.0) e
            (λ t. refl))
          (λ h e₁ p. finish_stale-Ends at group h e₁))
        (λ u e₁ p. stale_groups-Ends at groups e₁)

  process_stale-Ends :
      (in_order : List (Group fl chrono P N ids now) → List (Group fl chrono P N ids now))
      (at : Instant) (e : Env S)
      → Ends_ (process_stale_engine_sessions fl chrono P N ids now in_order at) e
  unfolding process_stale_engine_sessions fetch_all_active_engine_sessions
  process_stale-Ends in_order at e =
      chain (fetch_all_active_engine_sessions fl chrono P N ids now) _ e
        (calm fl chrono P N ids now (read_all_active fl chrono P N ids now) e (λ t. refl))
        (λ sessions e₁ p.
          stale_groups-Ends at (in_order (group_sessions fl chrono P N ids now [] sessions)) e₁)

  abbrev Same : {A : Type 0} → M S A → Env S → Type 0
  Same m e = (m e).1.store.sessions ≡ e.store.sessions

  -- The session was found by its prompt, and ids are unique.
  abbrev Prepared : ℤ → ℕ → EngineSession Instant → List (EngineSession Instant) → Type 0
  Prepared chat prompt s rows =
      (by_prompt fl chrono P N ids now chat prompt rows ≡ some s)
      × IsUnique fl chrono P N ids now rows

  carry :
      {A : Type 0} (m : M S A) (e e₁ : Env S) {a : A} (chat : ℤ) (prompt : ℕ)
      (s : EngineSession Instant)
      → Same m e
      → m e ≡ (ok a, e₁)
      → Prepared chat prompt s e.store.sessions
      → Prepared chat prompt s e₁.store.sessions
  carry m e e₁ chat prompt s same h prepared =
      subst (Prepared chat prompt s)
        (sym (subst (λ y. y.1.store.sessions ≡ e.store.sessions) h same)) prepared

  telegram_call-Same : (e : Env S) → Same (telegram_call fl chrono P N ids now) e
  unfolding telegram_call
  telegram_call-Same e =
      Keeps-call (λ (t : S). t.sessions) (nothing fl chrono P N ids now) e (λ t. refl)

  update-Ends :
      (chat : ℤ) (prompt : ℕ) (s : EngineSession Instant) (status : SessionStatus) (e : Env S)
      → is_pending s.session_status ≡ true
      → Prepared chat prompt s e.store.sessions
      → Ends_ (update_engine_session_status fl chrono P N ids now s.id status) e
  unfolding update_engine_session_status
  update-Ends chat prompt s status e pending (found, unique) =
      after-call (λ (t : S). Ends fl chrono P N ids now e.store t)
        (with_session fl chrono P N ids now s.id (with_status fl chrono P N ids now status)) e
        (Ends-refl fl chrono P N ids now e.store)
        (Fewer-found fl chrono P N ids now chat prompt status e.store.sessions s unique found
          pending)

  confirm-Ends :
      (chat : ℤ) (prompt : ℕ) (action : SessionAction) (s : EngineSession Instant) (e : Env S)
      → is_pending s.session_status ≡ true
      → Prepared chat prompt s e.store.sessions
      → Ends_ (confirm fl chrono P N ids now chat action s.id) e
  unfolding confirm send_message attempt
  confirm-Ends chat prompt action s e pending p₀ =
      let tell = telegram_call fl chrono P N ids now in
      let send = send_message fl chrono P N ids now chat (text_of fl chrono P N ids now action) in
      let quiet = attempt fl chrono P N ids now tell in
      chain tell _ e (telegram_call-Ends e) (λ u e₁ h₁.
        let p₁ = carry tell e e₁ chat prompt s (telegram_call-Same e) h₁ p₀ in
        chain tell _ e₁ (telegram_call-Ends e₁) (λ v e₂ h₂.
          let p₂ = carry tell e₁ e₂ chat prompt s (telegram_call-Same e₁) h₂ p₁ in
          chain send _ e₂
            (send_message-Ends fl chrono P N ids now chat (text_of fl chrono P N ids now action) e₂)
            (λ m e₃ h₃.
              let p₃ =
                carry send e₂ e₃ chat prompt s
                  (Keeps-call (λ (t : S). t.sessions)
                    (answered fl chrono P N ids now chat (text_of fl chrono P N ids now action)) e₂
                    (λ t. refl))
                  h₃ p₂ in
              chain quiet
                (λ _.
                  update_engine_session_status fl chrono P N ids now s.id
                    (status_of fl chrono P N ids now action))
                e₃ (telegram_call-Ends e₃)
                (λ w e₄ h₄.
                  update-Ends chat prompt s (status_of fl chrono P N ids now action) e₄ pending
                    (carry quiet e₃ e₄ chat prompt s (telegram_call-Same e₃) h₄ p₃)))))

  answer_found-Ends :
      (chat : ℤ) (prompt : ℕ) (action : SessionAction) (found : Option (EngineSession Instant))
      (e : Env S)
      → by_prompt fl chrono P N ids now chat prompt e.store.sessions ≡ found
      → IsUnique fl chrono P N ids now e.store.sessions
      → Ends_ (answer_found fl chrono P N ids now chat prompt action found) e
  unfolding answer_found
  answer_found-Ends chat prompt action none e h u = telegram_call-Ends e
  answer_found-Ends chat prompt action (some s) e h u =
      at (not (eqb_ℤ s.chat_id chat) || not (s.prompt_message_id == prompt))
        (is_pending s.session_status) refl
    where
      at :
          (a b : Bool)
          → is_pending s.session_status ≡ b
          → Ends_
              (if a
                then telegram_call fl chrono P N ids now
                else if not b
                then telegram_call fl chrono P N ids now
                else confirm fl chrono P N ids now chat action s.id)
              e
      at true b p = telegram_call-Ends e
      at false false p = telegram_call-Ends e
      at false true p = confirm-Ends chat prompt action s e p (h, u)

  answer_session-Ends :
      (chat : ℤ) (prompt : ℕ) (action : SessionAction) (e : Env S)
      → IsUnique fl chrono P N ids now e.store.sessions
      → Ends_ (answer_session fl chrono P N ids now chat prompt action) e
  unfolding answer_session fetch_engine_session_by_prompt_message
  answer_session-Ends chat prompt action e u =
      let act = read_by_prompt fl chrono P N ids now chat prompt in
      chain (call act) (answer_found fl chrono P N ids now chat prompt action) e
        (calm fl chrono P N ids now act e (λ t. refl))
        (λ found e₁ h.
          let q = call_ok act e h in
          let same : e.store ≡ e₁.store = ap (λ y. y.1) q in
          answer_found-Ends chat prompt action found e₁
            (sym (ap (λ (t : S). by_prompt fl chrono P N ids now chat prompt t.sessions) same)
              ∙ ap (λ y. y.0) q)
            (subst (λ (t : S). IsUnique fl chrono P N ids now t.sessions) same u))

  -- Ids are unique, and no device has two active sessions in one chat.
  abbrev pub IsWell : St fl chrono P N ids now → Type 0
  IsWell t = IsUnique fl chrono P N ids now t.sessions × IsSingle fl chrono P N ids now t

  Ends-IsWell : (t t' : S) → Ends fl chrono P N ids now t t' → IsWell t → IsWell t'
  Ends-IsWell t t' h (u, single) = (
    Ends-Numbers fl chrono P N ids now t t' h u,
    Ends-IsSingle fl chrono P N ids now t t' h single,
  )

  perform-IsWell :
      (fresh : IsFresh fl chrono P N ids now) (action : Action fl chrono P N ids now) (e : Env S)
      → IsWell e.store
      → IsWell (perform fl chrono P N ids now action e).1.store
  unfolding perform
  perform-IsWell fresh (heartbeat_came h status rs) e (u, single) = (
    process_recipients-Counts fl chrono P N ids now fresh h status rs e u,
    process_recipients-IsSingle fl chrono P N ids now h status rs e single,
  )
  perform-IsWell fresh (prompt_answered chat prompt action) e w =
      Ends-IsWell e.store (answer_session fl chrono P N ids now chat prompt action e).1.store
        (answer_session-Ends chat prompt action e w.0) w
  perform-IsWell fresh (sessions_checked in_order at) e w =
      Ends-IsWell e.store
        (process_stale_engine_sessions fl chrono P N ids now in_order at e).1.store
        (process_stale-Ends in_order at e) w

  -- Whatever the bot does, in any order: heartbeats of any devices for any recipients, answers to prompts,
  -- old ones too, and checks for silent devices, with any calls to the database or to Telegram failing on
  -- the way. If ids of sessions were unique and no device had two active sessions in one chat, it is so
  -- afterwards. The condition is that a new session's id is above those there are.
  pub run-IsWell :
      (fresh : IsFresh fl chrono P N ids now) (actions : List (Action fl chrono P N ids now))
      (e : Env (St fl chrono P N ids now))
      → IsWell e.store
      → IsWell (run fl chrono P N ids now actions e).store
  unfolding run
  run-IsWell fresh [] e w = w
  run-IsWell fresh (a ∷ actions) e w =
      run-IsWell fresh actions (perform fl chrono P N ids now a e).1 (perform-IsWell fresh a e w)
