-- ===== src/Lib.antt =====
-- gt06n-tcp-server: a server for GT06 / Concox GPS trackers with a subscription and payment side.
--
-- A tracker opens a TCP connection (src/server.rs) and sends frames (src/protocol.rs). The handler
-- cuts frames off its receive buffer, decodes them, acknowledges logins and heartbeats, and passes
-- events (src/events.rs) to handlers that log and store them (src/db.rs), with the distance that
-- each device has gone (src/service_distance.rs). A Telegram bot (src/bot.rs) follows the stored
-- heartbeats, opens a session when an engine goes on and ends it with a summary of the ride. Users
-- pay for access: a daily job (src/subscription_maintenance.rs) reminds them and records fines and
-- withdrawals, and a webhook of the payment provider (src/midtrans.rs, called from src/api.rs)
-- extends the paid period.
--
-- Protocol            the data of src/protocol.rs; bytes and wider unsigned integers are numbers
-- Protocol.Crc        `crc16_x25`, bit by bit
-- Protocol.Framing    `FrameDecoder::next_frame` and `encode_ack`; the buffer is a list of bytes that
--                     the decoder takes and returns
-- Protocol.Decode     `decode_message` and the decoders of the packet families
-- Protocol.Format     the text of bytes and the flags of a heartbeat
-- Events              the events and the composite handler of src/events.rs
-- Server              `handle_connection`: reads and write results are lists, replies and events a
--                     trace in order
-- Subscription        the rules of src/subscription_maintenance.rs: action, lifecycle, fines, quote
-- Billing             rows of the tables, and the messages that are sent
-- Maintenance         the daily job over these tables
-- Midtrans            tiers, plans, items, states and the signature of src/midtrans.rs
-- Midtrans.Checkout   the request to the provider for a quote, as src/bot.rs makes it
-- Midtrans.Webhook    `apply_midtrans_webhook` as a transaction, and `post_midtrans_webhook`
-- Tracking            the tables of devices, locations, heartbeats and distances
-- Distance            `process_location_distance` and the backfill of src/service_distance.rs
-- Distance.Ledger     the same for one device, as steps of a ledger
-- Database            `persist_event` of src/db.rs with the statements of its transactions
-- Ride                the summary of a ride in src/bot.rs, from the stored locations
-- Sessions            engine sessions and notifications of src/bot.rs: tables and statements
-- Sessions.Handling   what the bot does with a heartbeat and its recipients
-- Sessions.Answers    answers to prompts, silent devices, and the loop of the bot
-- Config              the settings of src/config.rs from pairs of names and values
-- Effects             calls that may fail, and transactions
-- Float, Chrono       `f64` and the calendar crate, taken as parameters
-- Prelude             lists, options, integers and bits that all share
-- Tests               concrete inputs
--
-- Bounds and fuel. `next_frame` recurses on the buffer. The inner loop of the handler is on fuel: one
-- more than the length of the buffer, and every round but the last takes a byte off it. Signed
-- integers are exact, with the wrap-around of `i32` and `i64` written out where the code converts or
-- adds. Calls to the database and to Telegram may fail at any place, as a list of outcomes says.
--
-- Not modelled: the accept loop, logging, sending HTTP requests, connecting to the database, message
-- texts, registration, commands and analytics of the bot (src/bot.rs), and the REST handlers of
-- src/api.rs. Where a GPS date does not exist, src/db.rs reads the clock in each of two statements:
-- both readings are parameters, by the statement and the time of the call. The bot reads the clock where it ends a session: the model has one time for this,
-- which nothing but the column `resolved_at` depends on.
pub mod Prelude
pub mod Float
pub mod Protocol
pub mod Events
pub mod Server
pub mod Chrono
pub mod Subscription
pub mod Effects
pub mod Tracking
pub mod Distance
pub mod Database
pub mod Ride
pub mod Config
pub mod Sessions
pub mod Billing
pub mod Maintenance
pub mod Midtrans
pub mod Tests
