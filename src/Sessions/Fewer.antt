-- ===== src/Sessions/Fewer.antt =====
-- Which sessions of src/bot.rs are active, and that ending sessions makes none of them active.
use gt06n_tcp_server.Prelude.{
  ℕ, ◌+◌, ◌≤◌, ◌≡◌, refl, sym, ap, ◌∙◌, subst, arith, List, [], ◌∷◌, ◌++◌, length, All, Bool, true,
  false, ◌==◌, if◌then◌else◌, Bool-cases, ◌⊎◌, inl, inr,
}
use gt06n_tcp_server.Prelude.Int.{ℤ, eqb_ℤ}
use gt06n_tcp_server.Float.{Float64}
use gt06n_tcp_server.Chrono.{Chrono}
use gt06n_tcp_server.Protocol.Framing.{bytes_eq}
use gt06n_tcp_server.Sessions.{
  Ids, is_active, Session, active_for, active_sessions, insert_session, earlier, update_session,
  resolved,
}

module _ (fl : Float64) (chrono : Chrono) (P N : Type 0) (ids : Ids (chrono.Instant))
    (now : chrono.Instant) where
  open chrono use {Instant}

  abbrev pub Ses : Type 0
  Ses = Session fl chrono P N ids now

  abbrev pub active_at : List ℕ → ℤ → Ses → Bool
  active_at imei chat s = active_for fl chrono P N ids now imei chat s

  pub active_count : List ℕ → ℤ → List Ses → ℕ
  active_count imei chat [] = 0
  active_count imei chat (s ∷ rows) =
      if active_at imei chat s then 1 + active_count imei chat rows else active_count imei chat rows

  length-insert_session :
      (s : Ses) (rows : List Ses)
      → length (insert_session fl chrono P N ids now s rows) ≡ 1 + length rows
  unfolding insert_session
  length-insert_session s [] = refl
  length-insert_session s (r ∷ rows) = ground (arith, length-insert_session s rows)

  pub length-active_sessions :
      (imei : List ℕ) (chat : ℤ) (rows : List Ses)
      → length (active_sessions fl chrono P N ids now imei chat rows) ≡ active_count imei chat rows
  unfolding active_sessions active_count
  length-active_sessions imei chat [] = refl
  length-active_sessions imei chat (s ∷ rows) = ground (
    arith,
    length-active_sessions imei chat rows,
    length-insert_session s (active_sessions fl chrono P N ids now imei chat rows),
  )

  -- Row for row the same key, and no row active that was not.
  abbrev Still : Ses → Ses → Type 0
  Still r r' =
      (r'.id ≡ r.id)
      × (r'.imei ≡ r.imei)
      × (r'.chat_id ≡ r.chat_id)
      × (is_active r'.session_status ≡ true → is_active r.session_status ≡ true)

  abbrev pub Fewer : List Ses → List Ses → Type 0
  Fewer [] [] = Unit {0}
  Fewer [] (r' ∷ rows') = true ≡ false
  Fewer (r ∷ rows) [] = true ≡ false
  Fewer (r ∷ rows) (r' ∷ rows') = Still r r' × Fewer rows rows'

  pub Fewer-refl : (rows : List Ses) → Fewer rows rows
  Fewer-refl [] = tt
  Fewer-refl (r ∷ rows) = ((refl, refl, refl, λ h. h), Fewer-refl rows)

  pub Fewer-trans : (a b c : List Ses) → Fewer a b → Fewer b c → Fewer a c
  Fewer-trans [] [] c h k = k
  Fewer-trans [] (y ∷ b) c h k = cc
  Fewer-trans (x ∷ a) [] c h k = cc
  Fewer-trans (x ∷ a) (y ∷ b) [] h k = cc
  Fewer-trans (x ∷ a) (y ∷ b) (z ∷ c) ((i, m, n, act), h) ((i', m', n', act'), k) =
      ((i' ∙ i, m' ∙ m, n' ∙ n, λ q. act (act' q)), Fewer-trans a b c h k)

  pub Fewer-update_session :
      (id : ℕ) (set : Ses → Ses) (rows : List Ses)
      → ((r : Ses) → Still r (set r))
      → Fewer rows (update_session fl chrono P N ids now id set rows)
  unfolding update_session
  Fewer-update_session id set [] h = tt
  Fewer-update_session id set (r ∷ rows) h = (at (r.id == id), Fewer-update_session id set rows h)
    where
      at : (b : Bool) → Still r (if b then set r else r)
      at true = h r
      at false = (refl, refl, refl, λ q. q)

  pub Still-resolved : (at : Instant) (r : Ses) → Still r (resolved fl chrono P N ids now at r)
  unfolding is_active
  Still-resolved at r = (refl, refl, refl, λ q. cc)

  pub active_count-Fewer :
      (imei : List ℕ) (chat : ℤ) (rows rows' : List Ses)
      → Fewer rows rows'
      → active_count imei chat rows' ≤ active_count imei chat rows
  unfolding active_count active_for
  active_count-Fewer imei chat [] [] h = omega arith
  active_count-Fewer imei chat [] (y ∷ rows') h = cc
  active_count-Fewer imei chat (x ∷ rows) [] h = cc
  active_count-Fewer imei chat (x ∷ rows) (y ∷ rows') ((i, m, n, act), h) =
      let same_imei : bytes_eq y.imei imei ≡ bytes_eq x.imei imei = ap (λ k. bytes_eq k imei) m in
      let same_chat : eqb_ℤ y.chat_id chat ≡ eqb_ℤ x.chat_id chat = ap (λ k. eqb_ℤ k chat) n in
      ground (arith, same_imei, same_chat, active_count-Fewer imei chat rows rows' h)

  -- No row with this id is active.
  abbrev pub Inactive : ℕ → List Ses → Type 0
  Inactive id rows = All (λ (r : Ses). r.id ≡ id → is_active r.session_status ≡ false) rows

  pub Inactive-resolved :
      (id : ℕ) (at : Instant) (rows : List Ses)
      → Inactive id
          (update_session fl chrono P N ids now id (resolved fl chrono P N ids now at) rows)
  unfolding update_session is_active
  Inactive-resolved id at [] = tt
  Inactive-resolved id at (r ∷ rows) = (λ h. ground arith, Inactive-resolved id at rows)

  pub Inactive-Fewer :
      (id : ℕ) (rows rows' : List Ses) → Fewer rows rows' → Inactive id rows → Inactive id rows'
  Inactive-Fewer id [] [] h k = tt
  Inactive-Fewer id [] (y ∷ rows') h k = cc
  Inactive-Fewer id (x ∷ rows) [] h k = tt
  Inactive-Fewer id (x ∷ rows) (y ∷ rows') ((i, m, n, act), h) (off, k) = (
    λ q. let gone = off (sym i ∙ q) in ground (arith, gone, act),
    Inactive-Fewer id rows rows' h k,
  )

  All-insert_session :
      (Q : Ses → Type 0) (s : Ses) (rows : List Ses)
      → All Q (insert_session fl chrono P N ids now s rows)
      → Q s × All Q rows
  unfolding insert_session
  All-insert_session Q s [] h = h
  All-insert_session Q s (r ∷ rows) h =
      at (All-insert_session Q s rows) (earlier fl chrono P N ids now s r) h
    where
      at :
          (All Q (insert_session fl chrono P N ids now s rows) → Q s × All Q rows)
          → (b : Bool)
          → All Q (if b then s ∷ r ∷ rows else r ∷ insert_session fl chrono P N ids now s rows)
          → Q s × All Q (r ∷ rows)
      at later true k = k
      at later false (q, k) = let (p, rest) = later k in (p, (q, rest))

  All-tail :
      (y : Ses) (rows : List Ses) (ss : List Ses)
      → All (λ (s : Ses). Inactive s.id (y ∷ rows)) ss
      → All (λ (s : Ses). Inactive s.id rows) ss
  All-tail y rows [] h = tt
  All-tail y rows (s ∷ ss) (h, k) = (h.1, All-tail y rows ss k)

  -- Once each session that was active is so no longer, there is none left.
  pub none_left :
      (imei : List ℕ) (chat : ℤ) (rows rows' : List Ses)
      → Fewer rows rows'
      → All
          (λ (s : Ses). Inactive s.id rows')
          (active_sessions fl chrono P N ids now imei chat rows)
      → active_count imei chat rows' ≡ 0
  unfolding active_count active_sessions active_for
  none_left imei chat [] [] h k = refl
  none_left imei chat [] (y ∷ rows') h k = cc
  none_left imei chat (x ∷ rows) [] h k = refl
  none_left imei chat (x ∷ rows) (y ∷ rows') ((i, m, n, act), h) k =
      at (none_left imei chat rows rows' h) (Bool-cases (active_at imei chat x))
    where
      others : List Ses
      others = active_sessions fl chrono P N ids now imei chat rows

      same_imei : bytes_eq y.imei imei ≡ bytes_eq x.imei imei
      same_imei = ap (λ l. bytes_eq l imei) m

      same_chat : eqb_ℤ y.chat_id chat ≡ eqb_ℤ x.chat_id chat
      same_chat = ap (λ l. eqb_ℤ l chat) n

      at :
          (All (λ (s : Ses). Inactive s.id rows') others → active_count imei chat rows' ≡ 0)
          → (active_at imei chat x ≡ true) ⊎ (active_at imei chat x ≡ false)
          → active_count imei chat (y ∷ rows') ≡ 0
      at later (inl is) =
          let found : All (λ (s : Ses). Inactive s.id (y ∷ rows'))
              (insert_session fl chrono P N ids now x others) =
            subst
              (λ b.
                All (λ (s : Ses). Inactive s.id (y ∷ rows'))
                  (if b then insert_session fl chrono P N ids now x others else others))
              is k in
          let (off, rest) = All-insert_session (λ s. Inactive s.id (y ∷ rows')) x others found in
          ground (arith, off.0 i, later (All-tail y rows' others rest))
      at later (inr isnt) =
          let rest : All (λ (s : Ses). Inactive s.id (y ∷ rows')) others =
            subst
              (λ b.
                All (λ (s : Ses). Inactive s.id (y ∷ rows'))
                  (if b then insert_session fl chrono P N ids now x others else others))
              isnt k in
          ground (arith, same_imei, same_chat, act, isnt, later (All-tail y rows' others rest))

  pub active_count-append :
      (imei : List ℕ) (chat : ℤ) (rows : List Ses) (new : Ses)
      → active_count imei chat (rows ++ (new ∷ []))
        ≡ active_count imei chat rows + (if active_at imei chat new then 1 else 0)
  unfolding active_count
  active_count-append imei chat [] new = ground arith
  active_count-append imei chat (x ∷ rows) new =
      ground (arith, active_count-append imei chat rows new)
