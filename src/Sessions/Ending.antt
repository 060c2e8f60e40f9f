-- ===== src/Sessions/Ending.antt =====
-- Ending engine sessions (`finish_active_engine_sessions` and its parts, src/bot.rs).
use gt06n_tcp_server.Prelude.{
  ℕ, ◌≡◌, refl, sym, ap, subst, List, [], ◌∷◌, All, Bool, true, false, ◌&&◌, if◌then◌else◌, Option,
  none, some, ok,
}
use gt06n_tcp_server.Prelude.Int.{ℤ}
use gt06n_tcp_server.Float.{Float64}
use gt06n_tcp_server.Chrono.{Chrono}
use gt06n_tcp_server.Effects.{M, Env, ◌>>◌, return, call, call_ok}
use gt06n_tcp_server.Effects.Follows.{within->>=, Follows, Follows-call, Follows->>=}
use gt06n_tcp_server.Ride.{should_send_ride_summary}
use gt06n_tcp_server.Sessions.{
  Ids, Text, is_pending, is_theft, Store, resolved, reported, with_session, answered, nothing,
  read_summary, resolve_engine_session_at, set_engine_session_ride_status_message_id, send_message,
  attempt, clear_inline_keyboard,
}
use gt06n_tcp_server.Sessions.Handling.{
  theft_alert, report_ride, finish_from, finish_ride_session_and_send_summary, clear_keyboard_of,
  finish_each, finish_silently,
}
use gt06n_tcp_server.Sessions.Fewer.{
  Ses, Fewer, Fewer-refl, Fewer-trans, Fewer-update_session, Still-resolved, Inactive,
  Inactive-resolved, Inactive-Fewer,
}

module _ (fl : Float64) (chrono : Chrono) (P N : Type 0) (ids : Ids (chrono.Instant))
    (now : chrono.Instant) where
  open chrono use {Instant}

  abbrev pub S : Type 0
  S = Store fl chrono P N ids now

  abbrev pub Session : Type 0
  Session = Ses fl chrono P N ids now

  -- From one store to another, sessions have only ended.
  abbrev pub Ends : S → S → Type 0
  Ends t t' = Fewer fl chrono P N ids now t.sessions t'.sessions

  pub Ends-refl : (t : S) → Ends t t
  Ends-refl t = Fewer-refl fl chrono P N ids now t.sessions

  pub Ends-trans : (a b c : S) → Ends a b → Ends b c → Ends a c
  Ends-trans a b c h k = Fewer-trans fl chrono P N ids now a.sessions b.sessions c.sessions h k

  -- A call that leaves the sessions alone.
  pub calm :
      {A : Type 0} (act : S → A × S) (e : Env S)
      → ((t : S) → (act t).1.sessions ≡ t.sessions)
      → Follows Ends Ends-trans (call act) e
  calm act e h =
      Follows-call Ends Ends-trans act e Ends-refl
        (λ t. subst (λ ss. Fewer fl chrono P N ids now t.sessions ss) (sym (h t)) (Ends-refl t))

  pub send_message-Ends :
      (chat : ℤ) (text : Text) (e : Env S)
      → Follows Ends Ends-trans (send_message fl chrono P N ids now chat text) e
  unfolding send_message
  send_message-Ends chat text e = calm (answered fl chrono P N ids now chat text) e (λ t. refl)

  pub resolve-Ends :
      (id : ℕ) (at : Instant) (e : Env S)
      → Follows Ends Ends-trans (resolve_engine_session_at fl chrono P N ids now id at) e
  unfolding resolve_engine_session_at
  resolve-Ends id at e =
      Follows-call Ends Ends-trans
        (with_session fl chrono P N ids now id (resolved fl chrono P N ids now at)) e Ends-refl
        (λ t.
          Fewer-update_session fl chrono P N ids now id (resolved fl chrono P N ids now at)
            t.sessions (Still-resolved fl chrono P N ids now at))

  set_reported-Ends :
      (id message_id : ℕ) (e : Env S)
      → Follows Ends Ends-trans
          (set_engine_session_ride_status_message_id fl chrono P N ids now id message_id)
          e
  unfolding set_engine_session_ride_status_message_id
  set_reported-Ends id message_id e =
      Follows-call Ends Ends-trans
        (with_session fl chrono P N ids now id (reported fl chrono P N ids now message_id)) e
        Ends-refl
        (λ t.
          Fewer-update_session fl chrono P N ids now id (reported fl chrono P N ids now message_id)
            t.sessions (λ r. (refl, refl, refl, λ h. h)))

  theft_alert-Ends :
      (chat : ℤ) (alert : Bool) (e : Env S)
      → Follows Ends Ends-trans (theft_alert fl chrono P N ids now chat alert) e
  unfolding theft_alert
  theft_alert-Ends chat false e = Ends-refl e.store
  theft_alert-Ends chat true e =
      Follows->>= Ends Ends-trans (send_message fl chrono P N ids now chat Text.theft_engine_off)
        (λ _. return tt) e (send_message-Ends chat Text.theft_engine_off e)
        (λ a e₁ h. Ends-refl e₁.store)

  report_ride-Ends :
      (chat : ℤ) (session : Session) (id : ℕ) (b : Bool) (e : Env S)
      → Follows Ends Ends-trans (report_ride fl chrono P N ids now chat session id b) e
  unfolding report_ride
  report_ride-Ends chat session id false e = Ends-refl e.store
  report_ride-Ends chat session id true e =
      Follows->>= Ends Ends-trans (send_message fl chrono P N ids now chat Text.ride_summary_report)
        _ e (send_message-Ends chat Text.ride_summary_report e)
        (λ m e₁ h.
          Follows->>= Ends Ends-trans
            (set_engine_session_ride_status_message_id fl chrono P N ids now session.id m)
            (λ _. return m) e₁ (set_reported-Ends session.id m e₁) (λ a e₂ k. Ends-refl e₂.store))

  -- The last step of an ended ride.
  abbrev ended : ℕ → Instant → ℕ → M S ℕ
  ended id at message_id =
      resolve_engine_session_at fl chrono P N ids now id at >> return message_id

  ended-Ends :
      (id : ℕ) (at : Instant) (m : ℕ) (e : Env S) → Follows Ends Ends-trans (ended id at m) e
  ended-Ends id at m e =
      Follows->>= Ends Ends-trans (resolve_engine_session_at fl chrono P N ids now id at)
        (λ _. return m) e (resolve-Ends id at e) (λ a e₁ h. Ends-refl e₁.store)

  resolve-Inactive :
      (id : ℕ) (at : Instant) (e e' : Env S) {u : Unit {0}}
      → resolve_engine_session_at fl chrono P N ids now id at e ≡ (ok u, e')
      → Inactive fl chrono P N ids now id e'.store.sessions
  unfolding resolve_engine_session_at
  resolve-Inactive id at e e' h =
      subst (λ (t : S). Inactive fl chrono P N ids now id t.sessions)
        (ap (λ y. y.1)
          (call_ok (with_session fl chrono P N ids now id (resolved fl chrono P N ids now at)) e h))
        (Inactive-resolved fl chrono P N ids now id at e.store.sessions)

  ended-Inactive :
      (id : ℕ) (at : Instant) (m : ℕ) (e e' : Env S) {n : ℕ}
      → ended id at m e ≡ (ok n, e')
      → Inactive fl chrono P N ids now id e'.store.sessions
  ended-Inactive id at m e e' h =
      within->>= (resolve_engine_session_at fl chrono P N ids now id at) (λ _. return m) e h
        (λ u e₁ p q.
          subst (λ (y : Env S). Inactive fl chrono P N ids now id y.store.sessions)
            (ap (λ y. y.1) q) (resolve-Inactive id at e e₁ p))

  finish_from-Ends :
      (m : Option ℕ) (chat : ℤ) (imei : List ℕ) (session : Session) (at : Instant) (alert : Bool)
      (e : Env S)
      → Follows Ends Ends-trans (finish_from fl chrono P N ids now m chat imei session at alert) e
  unfolding finish_from
  finish_from-Ends (some m) chat imei session at alert e = ended-Ends session.id at m e
  finish_from-Ends none chat imei session at alert e =
      Follows->>= Ends Ends-trans (send_message fl chrono P N ids now chat Text.session_finished) _
        e (send_message-Ends chat Text.session_finished e)
        (λ f e₁ h₁.
          Follows->>= Ends Ends-trans
            (call (read_summary fl chrono P N ids now imei session.created_at at)) _ e₁
            (calm (read_summary fl chrono P N ids now imei session.created_at at) e₁ (λ t. refl))
            (λ summary e₂ h₂.
              Follows->>= Ends Ends-trans (call (nothing fl chrono P N ids now)) _ e₂
                (calm (nothing fl chrono P N ids now) e₂ (λ t. refl))
                (λ u e₃ h₃.
                  Follows->>= Ends Ends-trans
                    (theft_alert fl chrono P N ids now chat
                      (alert && is_theft session.session_status))
                    _ e₃ (theft_alert-Ends chat (alert && is_theft session.session_status) e₃)
                    (λ v e₄ h₄.
                      Follows->>= Ends Ends-trans
                        (report_ride fl chrono P N ids now chat session f
                          (should_send_ride_summary fl chrono summary))
                        _ e₄
                        (report_ride-Ends chat session f
                          (should_send_ride_summary fl chrono summary) e₄)
                        (λ m e₅ h₅. ended-Ends session.id now m e₅)))))

  finish_from-Inactive :
      (m : Option ℕ) (chat : ℤ) (imei : List ℕ) (session : Session) (at : Instant) (alert : Bool)
      (e e' : Env S) {n : ℕ}
      → finish_from fl chrono P N ids now m chat imei session at alert e ≡ (ok n, e')
      → Inactive fl chrono P N ids now session.id e'.store.sessions
  unfolding finish_from
  finish_from-Inactive (some m) chat imei session at alert e e' h =
      ended-Inactive session.id at m e e' h
  finish_from-Inactive none chat imei session at alert e e' h =
      within->>= (send_message fl chrono P N ids now chat Text.session_finished) _ e h
        (λ f e₁ h₁ k₁.
          within->>= (call (read_summary fl chrono P N ids now imei session.created_at at)) _ e₁ k₁
            (λ summary e₂ h₂ k₂.
              within->>= (call (nothing fl chrono P N ids now)) _ e₂ k₂ (λ u e₃ h₃ k₃.
                within->>=
                  (theft_alert fl chrono P N ids now chat
                    (alert && is_theft session.session_status))
                  _ e₃ k₃
                  (λ v e₄ h₄ k₄.
                    within->>=
                      (report_ride fl chrono P N ids now chat session f
                        (should_send_ride_summary fl chrono summary))
                      _ e₄ k₄ (λ m e₅ h₅ k₅. ended-Inactive session.id now m e₅ e' k₅)))))

  clear_keyboard_of-Ends :
      (session : Session) (e : Env S)
      → Follows Ends Ends-trans (clear_keyboard_of fl chrono P N ids now session) e
  unfolding clear_keyboard_of clear_inline_keyboard attempt
  clear_keyboard_of-Ends session e = at (is_pending session.session_status)
    where
      at :
          (b : Bool)
          → Follows Ends Ends-trans
              (if b then clear_inline_keyboard fl chrono P N ids now else return tt)
              e
      at true = calm (nothing fl chrono P N ids now) e (λ t. refl)
      at false = Ends-refl e.store

  pub finish_each-Ends :
      (chat : ℤ) (imei : List ℕ) (at : Instant) (alert : Bool) (last : Option ℕ)
      (sessions : List Session) (e : Env S)
      → Follows Ends Ends-trans
          (finish_each fl chrono P N ids now chat imei at alert last sessions)
          e
  unfolding finish_each finish_ride_session_and_send_summary
  finish_each-Ends chat imei at alert last [] e = Ends-refl e.store
  finish_each-Ends chat imei at alert last (s ∷ sessions) e =
      Follows->>= Ends Ends-trans (clear_keyboard_of fl chrono P N ids now s) _ e
        (clear_keyboard_of-Ends s e)
        (λ u e₁ h₁.
          Follows->>= Ends Ends-trans
            (finish_ride_session_and_send_summary fl chrono P N ids now chat imei s at alert) _ e₁
            (finish_from-Ends s.ride_status_message_id chat imei s at alert e₁)
            (λ m e₂ h₂. finish_each-Ends chat imei at alert (some m) sessions e₂))

  -- What has ended is still so in a later store.
  later :
      {A : Type 0} (m : M S A) (e e' : Env S) {a : A}
      → Follows Ends Ends-trans m e
      → m e ≡ (ok a, e')
      → Ends e.store e'.store
  later m e e' f h = subst (λ y. Ends e.store y.1.store) h f

  pub finish_each-Inactive :
      (chat : ℤ) (imei : List ℕ) (at : Instant) (alert : Bool) (last : Option ℕ)
      (sessions : List Session) (e e' : Env S) {n : Option ℕ}
      → finish_each fl chrono P N ids now chat imei at alert last sessions e ≡ (ok n, e')
      → All (λ (s : Session). Inactive fl chrono P N ids now s.id e'.store.sessions) sessions
  unfolding finish_each finish_ride_session_and_send_summary
  finish_each-Inactive chat imei at alert last [] e e' h = tt
  finish_each-Inactive chat imei at alert last (s ∷ sessions) e e' {n} h =
      within->>= (clear_keyboard_of fl chrono P N ids now s) _ e h (λ u e₁ h₁ k₁.
        within->>= (finish_ride_session_and_send_summary fl chrono P N ids now chat imei s at alert)
          _ e₁ k₁
          (λ m e₂ h₂ k₂. (
            Inactive-Fewer fl chrono P N ids now s.id e₂.store.sessions e'.store.sessions
                (later (finish_each fl chrono P N ids now chat imei at alert (some m) sessions) e₂
                  e' (finish_each-Ends chat imei at alert (some m) sessions e₂) k₂)
                (finish_from-Inactive s.ride_status_message_id chat imei s at alert e₁ e₂ h₂),
            finish_each-Inactive chat imei at alert (some m) sessions e₂ e' k₂,
          )))

  pub finish_silently-Ends :
      (at : Instant) (sessions : List Session) (e : Env S)
      → Follows Ends Ends-trans (finish_silently fl chrono P N ids now at sessions) e
  unfolding finish_silently
  finish_silently-Ends at [] e = Ends-refl e.store
  finish_silently-Ends at (s ∷ sessions) e =
      Follows->>= Ends Ends-trans (clear_keyboard_of fl chrono P N ids now s) _ e
        (clear_keyboard_of-Ends s e)
        (λ u e₁ h₁.
          Follows->>= Ends Ends-trans (resolve_engine_session_at fl chrono P N ids now s.id at) _ e₁
            (resolve-Ends s.id at e₁) (λ v e₂ h₂. finish_silently-Ends at sessions e₂))
