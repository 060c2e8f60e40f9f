-- ===== src/Sessions/Unique.antt =====
-- Session ids are unique, so an answer to a prompt (src/bot.rs) cannot revive another session.
use gt06n_tcp_server.Prelude.{
  ℕ, ◌<◌, ◌≡◌, ◌≢◌, ◌⊎◌, inl, inr, refl, sym, ap, ◌∙◌, subst, arith, List, [], ◌∷◌, ◌++◌, All, Bool,
  true, false, ◌&&◌, ◌==◌, ltb, if◌then◌else◌, Option, none, some,
}
use gt06n_tcp_server.Prelude.Int.{ℤ, eqb_ℤ}
use gt06n_tcp_server.Float.{Float64}
use gt06n_tcp_server.Chrono.{Chrono}
use gt06n_tcp_server.Sessions.{Ids, SessionStatus, is_active, is_pending, update_session}
use gt06n_tcp_server.Sessions.Answers.{newer, by_prompt, with_status}
use gt06n_tcp_server.Sessions.Fewer.{Ses, Fewer}

module _ (fl : Float64) (chrono : Chrono) (P N : Type 0) (ids : Ids (chrono.Instant))
    (now : chrono.Instant) where
  abbrev Row : Type 0
  Row = Ses fl chrono P N ids now

  abbrev Less : List Row → List Row → Type 0
  Less rows rows' = Fewer fl chrono P N ids now rows rows'

  abbrev Differs : ℕ → List Row → Type 0
  Differs id rows = All (λ (q : Row). q.id ≢ id) rows

  abbrev pub IsUnique : List Row → Type 0
  IsUnique [] = Unit {0}
  IsUnique (r ∷ rows) = Differs r.id rows × IsUnique rows

  Differs-Fewer :
      (id : ℕ) (rows rows' : List Row) → Less rows rows' → Differs id rows → Differs id rows'
  Differs-Fewer id [] [] h k = tt
  Differs-Fewer id [] (y ∷ rows') h k = cc
  Differs-Fewer id (x ∷ rows) [] h k = tt
  Differs-Fewer id (x ∷ rows) (y ∷ rows') ((i, m, n, act), h) (d, k) =
      (λ q. d (sym i ∙ q), Differs-Fewer id rows rows' h k)

  pub IsUnique-Fewer : (rows rows' : List Row) → Less rows rows' → IsUnique rows → IsUnique rows'
  IsUnique-Fewer [] [] h k = tt
  IsUnique-Fewer [] (y ∷ rows') h k = cc
  IsUnique-Fewer (x ∷ rows) [] h k = tt
  IsUnique-Fewer (x ∷ rows) (y ∷ rows') ((i, m, n, act), h) (d, k) = (
    Differs-Fewer y.id rows rows' h (subst (λ id. Differs id rows) (sym i) d),
    IsUnique-Fewer rows rows' h k,
  )

  Differs-append :
      (id : ℕ) (rows : List Row) (new : Row)
      → Differs id rows
      → new.id ≢ id
      → Differs id (rows ++ (new ∷ []))
  Differs-append id [] new h k = (k, tt)
  Differs-append id (r ∷ rows) new (d, h) k = (d, Differs-append id rows new h k)

  pub IsUnique-append :
      (rows : List Row) (new : Row)
      → IsUnique rows
      → All (λ (r : Row). r.id < new.id) rows
      → IsUnique (rows ++ (new ∷ []))
  IsUnique-append [] new h k = (tt, tt)
  IsUnique-append (r ∷ rows) new (d, h) (less, k) =
      (Differs-append r.id rows new d (λ q. ground (arith, q, less)), IsUnique-append rows new h k)

  -- The session stands among the rows.
  abbrev Among : Row → List Row → Type 0
  Among s [] = true ≡ false
  Among s (r ∷ rows) = (s ≡ r) ⊎ Among s rows

  Among-by_prompt :
      (chat : ℤ) (prompt : ℕ) (rows : List Row) (s : Row)
      → by_prompt fl chrono P N ids now chat prompt rows ≡ some s
      → Among s rows
  unfolding by_prompt
  Among-by_prompt chat prompt [] s h = cc
  Among-by_prompt chat prompt (r ∷ rows) s h =
      at (eqb_ℤ r.chat_id chat && r.prompt_message_id == prompt)
        (by_prompt fl chrono P N ids now chat prompt rows) (Among-by_prompt chat prompt rows s) h
    where
      at :
          (b : Bool) (rest : Option Row)
          → (rest ≡ some s → Among s rows)
          → (if b then newer fl chrono P N ids now r rest else rest) ≡ some s
          → Among s (r ∷ rows)
      at false rest later q = inr (later q)
      at true none later q = inl cc
      at true (some o) later q = which (ltb o.id r.id) q
        where
          which : (b : Bool) → (if b then some r else some o) ≡ some s → Among s (r ∷ rows)
          which true q = inl cc
          which false q = inr (later q)

  -- With unique ids, the rows that have the id of an active one are active.
  abbrev Active : ℕ → List Row → Type 0
  Active id rows = All (λ (r : Row). r.id ≡ id → is_active r.session_status ≡ true) rows

  vacuous : (id : ℕ) (rows : List Row) → Differs id rows → Active id rows
  vacuous id [] h = tt
  vacuous id (r ∷ rows) (d, h) = ((λ q. ground (arith, q, d)), vacuous id rows h)

  not-Among : (s : Row) (id : ℕ) (rows : List Row) → Among s rows → Differs id rows → s.id ≢ id
  not-Among s id [] a h = cc
  not-Among s id (r ∷ rows) (inl is) (d, h) = λ q. d (ap (λ (x : Row). x.id) (sym is) ∙ q)
  not-Among s id (r ∷ rows) (inr a) (d, h) = not-Among s id rows a h

  Active-alike :
      (s : Row) (rows : List Row)
      → IsUnique rows
      → Among s rows
      → is_active s.session_status ≡ true
      → Active s.id rows
  Active-alike s [] u a h = tt
  Active-alike s (r ∷ rows) (d, u) (inl is) h = (
    λ q. ap (λ (x : Row). is_active x.session_status) (sym is) ∙ h,
    vacuous s.id rows (subst (λ id. Differs id rows) (ap (λ (x : Row). x.id) (sym is)) d),
  )
  Active-alike s (r ∷ rows) (d, u) (inr a) h = (
    (λ q. let ne = not-Among s r.id rows a d in ground (arith, q, ne)),
    Active-alike s rows u a h,
  )

  Fewer-with_status :
      (id : ℕ) (status : SessionStatus) (rows : List Row)
      → Active id rows
      → Less rows
          (update_session fl chrono P N ids now id (with_status fl chrono P N ids now status) rows)
  unfolding update_session
  Fewer-with_status id status [] h = tt
  Fewer-with_status id status (r ∷ rows) (a, h) =
      (at (r.id == id) refl, Fewer-with_status id status rows h)
    where
      set : Row
      set = with_status fl chrono P N ids now status r

      at :
          (b : Bool)
          → (r.id == id) ≡ b
          → ((if b then set else r).id ≡ r.id)
            × ((if b then set else r).imei ≡ r.imei)
            × ((if b then set else r).chat_id ≡ r.chat_id)
            × (is_active (if b then set else r).session_status ≡ true
                → is_active r.session_status ≡ true)
      at true p = (refl, refl, refl, λ q. a (ground (arith, p)))
      at false p = (refl, refl, refl, λ q. q)

  is_active-is_pending :
      (status : SessionStatus) → is_pending status ≡ true → is_active status ≡ true
  unfolding is_active
  is_active-is_pending SessionStatus.pending_confirmation h = refl
  is_active-is_pending SessionStatus.confirmed_safe h = refl
  is_active-is_pending SessionStatus.reported_theft h = refl
  is_active-is_pending SessionStatus.finished h = cc

  -- The update of the status of a pending session that was found leaves no more sessions active.
  pub Fewer-found :
      (chat : ℤ) (prompt : ℕ) (status : SessionStatus) (rows : List Row) (s : Row)
      → IsUnique rows
      → by_prompt fl chrono P N ids now chat prompt rows ≡ some s
      → is_pending s.session_status ≡ true
      → Fewer fl chrono P N ids now rows (
          update_session fl chrono P N ids now s.id (with_status fl chrono P N ids now status) rows)
  Fewer-found chat prompt status rows s u found pending = Fewer-with_status s.id status rows (
      Active-alike s rows u (Among-by_prompt chat prompt rows s found)
        (is_active-is_pending s.session_status pending))
