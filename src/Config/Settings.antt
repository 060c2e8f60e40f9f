-- ===== src/Config/Settings.antt =====
-- Where each setting of src/config.rs comes from.
use gt06n_tcp_server.Prelude.{
  ◌≡◌, ◌≢◌, ◌⊎◌, ◌↔◌, inl, inr, refl, ap, subst, ◌∙◌, arith, List, [], ◌∷◌, ◌++◌, All, Bool, true,
  false, Option, none, some, if◌then◌else◌,
}
use gt06n_tcp_server.Prelude.Int.{ℤ, pos}
use gt06n_tcp_server.Config.{
  Parsers, get, parsed, filled, some_filled, some_parsed, truthy, default_config, from_pairs,
}
use Prim.Native.String.{String}
use text.Mathlib.Text.{◌==◌}
use text.Mathlib.TextEquality.{eq_iff}

-- No pair has the name.
unfoldable pub IsAbsent : String → List (String × String) → Type 0
IsAbsent key vars = All (λ (x : String × String). x.0 ≢ key) vars

-- The value of the last pair with the name.
unfoldable pub IsLast : String → String → List (String × String) → Type 0
IsLast key value vars =
    (earlier : List (String × String)) × (later : List (String × String)) × (vars
      ≡ earlier ++ ((key, value) ∷ later))
    × IsAbsent key later

-- What a setting is that is read under the name `key`: what its last value stands for if the value is
-- accepted, and the default if it is not or if there is none.
unfoldable pub IsRead :
    {B : Type 0} → (String → Option B) → B → String → List (String × String) → B → Type 0
IsRead {B} accept default key vars result =
    ((value : String) × IsLast key value vars × (accept value ≡ some result))
    ⊎ ((value : String) × IsLast key value vars × (accept value ≡ none) × (result ≡ default))
    ⊎ (IsAbsent key vars × (result ≡ default))

-- The name's last value spells a yes.
unfoldable pub IsYes : (String → String) → String → List (String × String) → Type 0
IsYes normalized key vars =
    (value : String) × IsLast key value vars
    × ((normalized value ≡ "1") ⊎ (normalized value ≡ "true") ⊎ (normalized value ≡ "yes"))

-- What `get` finds.
abbrev IsFound : String → List (String × String) → Option String → Type 0
IsFound key vars none = IsAbsent key vars
IsFound key vars (some value) = IsLast key value vars

get-IsFound : (key : String) (vars : List (String × String)) → IsFound key vars (get key vars)
unfolding get IsAbsent IsLast
get-IsFound key [] = tt
get-IsFound key ((name, value) ∷ vars) =
    at (get key vars) (get-IsFound key vars) (name == key) (eq_iff name key)
  where
    at :
        (found : Option String)
        → IsFound key vars found
        → (b : Bool) → (b ≡ true) ↔ (name ≡ key)
        → IsFound key
            ((name, value) ∷ vars)
            (elim found [ some later ↦ some later | none ↦ if b then some value else none ])
    at (some later) (earlier, rest, q, absent) b h =
        ((name, value) ∷ earlier, rest, ap (λ l. (name, value) ∷ l) q, absent)
    at none absent true h = ([], vars, ap (λ n. (n, value) ∷ vars) (h.0 refl), absent)
    at none absent false h = ((λ q. let r = h.1 q in cc), absent)

parsed-IsRead :
    {B : Type 0} (parse : String → Option B) (field : B) (key : String)
    (vars : List (String × String))
    → IsRead parse field key vars (parsed parse field (get key vars))
unfolding IsRead parsed
parsed-IsRead {B} parse field key vars = at (get key vars) (get-IsFound key vars)
  where
    accepted :
        (value : String) (outcome : Option B)
        → parse value ≡ outcome
        → IsLast key value vars
        → IsRead parse field key vars (elim outcome [ none ↦ field | some result ↦ result ])
    accepted value none q is_last = inr (inl (value, is_last, q, refl))
    accepted value (some result) q is_last = inl (value, is_last, q)

    at :
        (found : Option String)
        → IsFound key vars found
        → IsRead parse field key vars (parsed parse field found)
    at none absent = inr (inr (absent, refl))
    at (some value) is_last = accepted value (parse value) refl is_last

get-IsAbsent :
    (key : String) (vars : List (String × String)) → IsAbsent key vars → get key vars ≡ none
unfolding get IsAbsent
get-IsAbsent key [] h = refl
get-IsAbsent key ((name, value) ∷ vars) (other, h) =
    let rest = get-IsAbsent key vars h in ground (arith, eq_iff name key, rest, other)

get-last :
    (key value : String) (earlier later : List (String × String))
    → IsAbsent key later
    → get key (earlier ++ ((key, value) ∷ later)) ≡ some value
unfolding get
get-last key value [] later h =
    let rest = get-IsAbsent key later h in ground (arith, eq_iff key key, rest)
get-last key value ((n, v) ∷ earlier) later h =
    let rest = get-last key value earlier later h in ground (arith, rest)

get-IsLast :
    (key value : String) (vars : List (String × String))
    → IsLast key value vars
    → get key vars ≡ some value
unfolding IsLast
get-IsLast key value vars (earlier, later, q, h) =
    ap (λ l. get key l) q ∙ get-last key value earlier later h

module _ {A : Type 0} (p : Parsers A) where
  -- A text is accepted unless it is blank, as it stands.
  abbrev pub a_text : String → Option String
  a_text value = if p.is_blank value then none else some value

  -- What may be absent is stored as present.
  abbrev pub present : {B : Type 0} → (String → Option B) → String → Option (Option B)
  present accept value = elim (accept value) [ none ↦ none | some result ↦ some (some result) ]

  same_filled :
      (field : String) (found : Option String) → parsed a_text field found ≡ filled p field found
  unfolding parsed filled
  same_filled field none = refl
  same_filled field (some value) = ground arith

  same_some_filled :
      (field : Option String) (found : Option String)
      → parsed (present a_text) field found ≡ some_filled p field found
  unfolding parsed some_filled
  same_some_filled field none = refl
  same_some_filled field (some value) = ground arith

  same_some_parsed :
      (field : Option ℤ) (found : Option String)
      → parsed (present p.i64) field found ≡ some_parsed p field found
  unfolding parsed some_parsed
  same_some_parsed field none = refl
  same_some_parsed field (some value) = ground arith

  -- By an accepting function that reads what is found as the code does.
  IsRead-same :
      {B : Type 0} (accept : String → Option B) (field : B) (key : String)
      (vars : List (String × String)) {result : B}
      → parsed accept field (get key vars) ≡ result
      → IsRead accept field key vars result
  IsRead-same accept field key vars same =
      subst (λ r. IsRead accept field key vars r) same (parsed-IsRead accept field key vars)

  truthy-none : truthy p false none ≡ false
  unfolding truthy
  truthy-none = refl

  truthy_iff :
      (value : String)
      → (truthy p false (some value) ≡ true) ↔ (
          (p.normalized value ≡ "1") ⊎ (p.normalized value ≡ "true") ⊎ (p.normalized value ≡ "yes"))
  unfolding truthy
  truthy_iff value =
      let text = p.normalized value in
      (
        λ h. ground (arith, eq_iff text "1", eq_iff text "true", eq_iff text "yes", h),
        λ h. ground (arith, eq_iff text "1", eq_iff text "true", eq_iff text "yes", h),
      )

  production_iff :
      (key : String) (vars : List (String × String))
      → (truthy p false (get key vars) ≡ true) ↔ IsYes p.normalized key vars
  unfolding IsYes
  production_iff key vars = (
    λ h. at (get key vars) (get-IsFound key vars) h,
    λ (value, is_last, spelled).
        ap (λ found. truthy p false found) (get-IsLast key value vars is_last)
        ∙ (truthy_iff value).1 spelled,
  )
    where
      at :
          (found : Option String)
          → IsFound key vars found
          → truthy p false found ≡ true
          → IsYes p.normalized key vars
      at none absent h = let off = truthy-none in cc
      at (some value) is_last h = (value, is_last, (truthy_iff value).0 h)

  -- Every setting comes from the last pair of its own name, and from no other: a number or an address from
  -- a value that its parser accepts, a text from a value that is not blank. A value that is not accepted
  -- leaves the setting's default, and so does a missing one. Production is on exactly if the value of its
  -- name spells "1", "true" or "yes".
  pub from_pairs_settings :
      (a b : A) (vars : List (String × String))
      → let c = from_pairs p a b vars in
        IsRead p.socket_addr a "GT06_BIND_ADDR" vars c.bind_addr
        × IsRead p.socket_addr b "HTTP_API_BIND_ADDR" vars c.http_api_bind_addr
        × IsRead a_text "info" "RUST_LOG" vars c.log_filter
        × IsRead p.usize 4096 "GT06_READ_BUFFER_CAPACITY" vars c.read_buffer_capacity
        × IsRead (present a_text) none "DATABASE_URL" vars c.database_url
        × IsRead p.u32 5 "DATABASE_MAX_CONNECTIONS" vars c.database_max_connections
        × IsRead p.u64 5000 "DATABASE_WRITE_TIMEOUT_MS" vars c.database_write_timeout_ms
        × IsRead (present a_text) none "TELEGRAM_BOT_TOKEN" vars c.telegram_bot_token
        × IsRead (present p.i64) none "TELEGRAM_ADMIN_CHAT_ID" vars c.telegram_admin_chat_id
        × IsRead p.u64 30 "TELEGRAM_POLL_TIMEOUT_SECS" vars c.telegram_poll_timeout_secs
        × IsRead p.u64 3000 "TELEGRAM_HEARTBEAT_POLL_INTERVAL_MS" vars
            c.telegram_heartbeat_poll_interval_ms
        × IsRead (present a_text) none "MIDTRANS_SERVER_KEY" vars c.midtrans_server_key
        × IsRead (present a_text) none "MIDTRANS_CLIENT_KEY" vars c.midtrans_client_key
        × IsRead (present a_text) none "MIDTRANS_MERCHANT_ID" vars c.midtrans_merchant_id
        × ((c.midtrans_is_production ≡ true) ↔ IsYes p.normalized "MIDTRANS_IS_PRODUCTION" vars)
        × IsRead p.i64 (pos 24) "MIDTRANS_PAYMENT_EXPIRY_HOURS" vars c.midtrans_payment_expiry_hours
        × IsRead p.i64
            (pos 35000)
            "MIDTRANS_BASIC_PLAN_PRICE_IDR"
            vars
            c.midtrans_basic_plan_price_idr
        × IsRead p.i64
            (pos 30000)
            "MIDTRANS_OJOL_PLAN_PRICE_IDR"
            vars
            c.midtrans_ojol_plan_price_idr
  unfolding from_pairs default_config
  from_pairs_settings a b vars =
      let text = λ (key : String).
        IsRead-same (present a_text) none key vars (same_some_filled none (get key vars)) in
      (
        parsed-IsRead p.socket_addr a "GT06_BIND_ADDR" vars,
        parsed-IsRead p.socket_addr b "HTTP_API_BIND_ADDR" vars,
        IsRead-same a_text "info" "RUST_LOG" vars (same_filled "info" (get "RUST_LOG" vars)),
        parsed-IsRead p.usize 4096 "GT06_READ_BUFFER_CAPACITY" vars,
        text "DATABASE_URL",
        parsed-IsRead p.u32 5 "DATABASE_MAX_CONNECTIONS" vars,
        parsed-IsRead p.u64 5000 "DATABASE_WRITE_TIMEOUT_MS" vars,
        text "TELEGRAM_BOT_TOKEN",
        IsRead-same (present p.i64) none "TELEGRAM_ADMIN_CHAT_ID" vars
            (same_some_parsed none (get "TELEGRAM_ADMIN_CHAT_ID" vars)),
        parsed-IsRead p.u64 30 "TELEGRAM_POLL_TIMEOUT_SECS" vars,
        parsed-IsRead p.u64 3000 "TELEGRAM_HEARTBEAT_POLL_INTERVAL_MS" vars,
        text "MIDTRANS_SERVER_KEY",
        text "MIDTRANS_CLIENT_KEY",
        text "MIDTRANS_MERCHANT_ID",
        production_iff "MIDTRANS_IS_PRODUCTION" vars,
        parsed-IsRead p.i64 (pos 24) "MIDTRANS_PAYMENT_EXPIRY_HOURS" vars,
        parsed-IsRead p.i64 (pos 35000) "MIDTRANS_BASIC_PLAN_PRICE_IDR" vars,
        parsed-IsRead p.i64 (pos 30000) "MIDTRANS_OJOL_PLAN_PRICE_IDR" vars,
      )
