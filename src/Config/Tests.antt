-- ===== src/Config/Tests.antt =====
-- Settings (src/config.rs) from pairs, some of them accepted and some not.
use gt06n_tcp_server.Prelude.{
  ℕ, ◌≡◌, ◌↔◌, refl, List, [], ◌∷◌, true, ◌||◌, none, some, if◌then◌else◌,
}
use gt06n_tcp_server.Prelude.Int.{pos}
use gt06n_tcp_server.Config.{Parsers, Config, get, parsed, truthy, from_pairs}
use gt06n_tcp_server.Config.Settings.{IsRead, IsYes, a_text, present, from_pairs_settings}
use Prim.Native.String.{String}
use text.Mathlib.Text.{◌==◌}

-- The only number is 8192, nothing is an address, and a text is blank if it is empty or one space.
abbrev strict : Parsers ℕ
strict = record {
  socket_addr = λ s. none;
  usize = λ s. if s == "8192" then some 8192 else none;
  u32 = λ s. none;
  u64 = λ s. if s == "8192" then some 8192 else none;
  i64 = λ s. none;
  is_blank = λ s. s == "" || s == " ";
  normalized = λ s. if s == " Yes" then "yes" else s;
}

abbrev vars : List (String × String)
vars =
    ("GT06_READ_BUFFER_CAPACITY", "8192")
    ∷ ("GT06_READ_BUFFER_CAPACITY", "many")
    ∷ ("TELEGRAM_POLL_TIMEOUT_SECS", "8192")
    ∷ ("MIDTRANS_IS_PRODUCTION", " Yes")
    ∷ ("DATABASE_URL", " ")
    ∷ []

abbrev config : Config ℕ
config = from_pairs strict 5000 8080 vars

some_settings :
    (config.read_buffer_capacity ≡ 4096)
    × (config.telegram_poll_timeout_secs ≡ 8192)
    × (config.midtrans_is_production ≡ true)
    × (config.database_url ≡ none)
unfolding from_pairs get parsed truthy
some_settings = (refl, refl, refl, refl)

from_pairs_settings_example :
    IsRead strict.socket_addr 5000 "GT06_BIND_ADDR" vars config.bind_addr
    × IsRead strict.socket_addr 8080 "HTTP_API_BIND_ADDR" vars config.http_api_bind_addr
    × IsRead (a_text strict) "info" "RUST_LOG" vars config.log_filter
    × IsRead strict.usize 4096 "GT06_READ_BUFFER_CAPACITY" vars config.read_buffer_capacity
    × IsRead (present strict (a_text strict)) none "DATABASE_URL" vars config.database_url
    × IsRead strict.u32 5 "DATABASE_MAX_CONNECTIONS" vars config.database_max_connections
    × IsRead strict.u64 5000 "DATABASE_WRITE_TIMEOUT_MS" vars config.database_write_timeout_ms
    × IsRead
        (present strict (a_text strict))
        none
        "TELEGRAM_BOT_TOKEN"
        vars
        config.telegram_bot_token
    × IsRead
        (present strict strict.i64)
        none
        "TELEGRAM_ADMIN_CHAT_ID"
        vars
        config.telegram_admin_chat_id
    × IsRead strict.u64 30 "TELEGRAM_POLL_TIMEOUT_SECS" vars config.telegram_poll_timeout_secs
    × IsRead strict.u64 3000 "TELEGRAM_HEARTBEAT_POLL_INTERVAL_MS" vars
        config.telegram_heartbeat_poll_interval_ms
    × IsRead
        (present strict (a_text strict))
        none
        "MIDTRANS_SERVER_KEY"
        vars
        config.midtrans_server_key
    × IsRead
        (present strict (a_text strict))
        none
        "MIDTRANS_CLIENT_KEY"
        vars
        config.midtrans_client_key
    × IsRead
        (present strict (a_text strict))
        none
        "MIDTRANS_MERCHANT_ID"
        vars
        config.midtrans_merchant_id
    × ((config.midtrans_is_production ≡ true)
        ↔ IsYes strict.normalized "MIDTRANS_IS_PRODUCTION" vars)
    × IsRead strict.i64
        (pos 24)
        "MIDTRANS_PAYMENT_EXPIRY_HOURS"
        vars
        config.midtrans_payment_expiry_hours
    × IsRead strict.i64
        (pos 35000)
        "MIDTRANS_BASIC_PLAN_PRICE_IDR"
        vars
        config.midtrans_basic_plan_price_idr
    × IsRead strict.i64
        (pos 30000)
        "MIDTRANS_OJOL_PLAN_PRICE_IDR"
        vars
        config.midtrans_ojol_plan_price_idr
from_pairs_settings_example = from_pairs_settings strict 5000 8080 vars
