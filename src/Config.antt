-- ===== src/Config.antt =====
-- src/config.rs: the settings of the program from pairs of names and values. The parsers of the
-- standard library, `trim().is_empty()` and `trim().to_ascii_lowercase()` are parameters.
pub mod Settings
pub mod Tests
use gt06n_tcp_server.Prelude.{
  ℕ, List, [], ◌∷◌, Bool, true, false, ◌||◌, not, if◌then◌else◌, Option, none, some,
}
use gt06n_tcp_server.Prelude.Int.{ℤ, pos}
use Prim.Native.String.{String}
use text.Mathlib.Text.{◌==◌}

-- `A` is the type of socket addresses.
pub record Parsers (A : Type 0) : Type 0 where
  pub socket_addr : String → Option A
  pub usize : String → Option ℕ
  pub u32 : String → Option ℕ
  pub u64 : String → Option ℕ
  pub i64 : String → Option ℤ
  pub is_blank : String → Bool
  pub normalized : String → String

pub record Config (A : Type 0) : Type 0 where
  pub bind_addr : A
  pub http_api_bind_addr : A
  pub log_filter : String
  pub read_buffer_capacity : ℕ
  pub database_url : Option String
  pub database_max_connections : ℕ
  pub database_write_timeout_ms : ℕ
  pub telegram_bot_token : Option String
  pub telegram_admin_chat_id : Option ℤ
  pub telegram_poll_timeout_secs : ℕ
  pub telegram_heartbeat_poll_interval_ms : ℕ
  pub midtrans_server_key : Option String
  pub midtrans_client_key : Option String
  pub midtrans_merchant_id : Option String
  pub midtrans_is_production : Bool
  pub midtrans_payment_expiry_hours : ℤ
  pub midtrans_basic_plan_price_idr : ℤ
  pub midtrans_ojol_plan_price_idr : ℤ

-- The map collected from the pairs: the last value of a name counts.
pub get : String → List (String × String) → Option String
get key [] = none
get key ((name, value) ∷ pairs) = elim (get key pairs) [
  | some later ↦ some later
  | none ↦ if name == key then some value else none
]

-- `if let Some(value) = … { if let Ok(parsed) = value.parse() { field = parsed } }`
pub parsed : {B : Type 0} → (String → Option B) → B → Option String → B
parsed parse field none = field
parsed parse field (some value) = elim (parse value) [ none ↦ field | some result ↦ result ]

module _ {A : Type 0} (p : Parsers A) where
  -- `if !value.trim().is_empty() { field = value.clone() }`
  pub filled : String → Option String → String
  filled field none = field
  filled field (some value) = if not (p.is_blank value) then value else field

  pub some_filled : Option String → Option String → Option String
  some_filled field none = field
  some_filled field (some value) = if not (p.is_blank value) then some value else field

  pub some_parsed : Option ℤ → Option String → Option ℤ
  some_parsed field none = field
  some_parsed field (some value) = elim (p.i64 value) [ none ↦ field | some result ↦ some result ]

  -- `matches!(…, "1" | "true" | "yes")`
  pub truthy : Bool → Option String → Bool
  truthy field none = field
  truthy field (some value) =
      let text = p.normalized value in
      if text == "1" then true else if text == "true" then true else text == "yes"

  -- With the two addresses that the defaults parse to.
  pub default_config : A → A → Config A
  default_config bind_addr http_api_bind_addr = record {
    bind_addr = bind_addr;
    http_api_bind_addr = http_api_bind_addr;
    log_filter = "info";
    read_buffer_capacity = 4096;
    database_url = none;
    database_max_connections = 5;
    database_write_timeout_ms = 5000;
    telegram_bot_token = none;
    telegram_admin_chat_id = none;
    telegram_poll_timeout_secs = 30;
    telegram_heartbeat_poll_interval_ms = 3000;
    midtrans_server_key = none;
    midtrans_client_key = none;
    midtrans_merchant_id = none;
    midtrans_is_production = false;
    midtrans_payment_expiry_hours = pos 24;
    midtrans_basic_plan_price_idr = pos 35000;
    midtrans_ojol_plan_price_idr = pos 30000;
  }

  pub from_pairs : A → A → List (String × String) → Config A
  unfolding get parsed filled some_filled some_parsed truthy default_config
  from_pairs bind_addr http_api_bind_addr vars =
      let d = default_config bind_addr http_api_bind_addr in
      record {
        bind_addr = parsed p.socket_addr d.bind_addr (get "GT06_BIND_ADDR" vars);
        http_api_bind_addr =
            parsed p.socket_addr d.http_api_bind_addr (get "HTTP_API_BIND_ADDR" vars);
        log_filter = filled d.log_filter (get "RUST_LOG" vars);
        read_buffer_capacity =
            parsed p.usize d.read_buffer_capacity (get "GT06_READ_BUFFER_CAPACITY" vars);
        database_url = some_filled d.database_url (get "DATABASE_URL" vars);
        database_max_connections =
            parsed p.u32 d.database_max_connections (get "DATABASE_MAX_CONNECTIONS" vars);
        database_write_timeout_ms =
            parsed p.u64 d.database_write_timeout_ms (get "DATABASE_WRITE_TIMEOUT_MS" vars);
        telegram_bot_token = some_filled d.telegram_bot_token (get "TELEGRAM_BOT_TOKEN" vars);
        telegram_admin_chat_id =
            some_parsed d.telegram_admin_chat_id (get "TELEGRAM_ADMIN_CHAT_ID" vars);
        telegram_poll_timeout_secs =
            parsed p.u64 d.telegram_poll_timeout_secs (get "TELEGRAM_POLL_TIMEOUT_SECS" vars);
        telegram_heartbeat_poll_interval_ms =
            parsed p.u64 d.telegram_heartbeat_poll_interval_ms
              (get "TELEGRAM_HEARTBEAT_POLL_INTERVAL_MS" vars);
        midtrans_server_key = some_filled d.midtrans_server_key (get "MIDTRANS_SERVER_KEY" vars);
        midtrans_client_key = some_filled d.midtrans_client_key (get "MIDTRANS_CLIENT_KEY" vars);
        midtrans_merchant_id = some_filled d.midtrans_merchant_id (get "MIDTRANS_MERCHANT_ID" vars);
        midtrans_is_production =
            truthy d.midtrans_is_production (get "MIDTRANS_IS_PRODUCTION" vars);
        midtrans_payment_expiry_hours =
            parsed p.i64 d.midtrans_payment_expiry_hours (get "MIDTRANS_PAYMENT_EXPIRY_HOURS" vars);
        midtrans_basic_plan_price_idr =
            parsed p.i64 d.midtrans_basic_plan_price_idr (get "MIDTRANS_BASIC_PLAN_PRICE_IDR" vars);
        midtrans_ojol_plan_price_idr =
            parsed p.i64 d.midtrans_ojol_plan_price_idr (get "MIDTRANS_OJOL_PLAN_PRICE_IDR" vars);
      }
