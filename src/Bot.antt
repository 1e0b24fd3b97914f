-- ===== src/Bot.antt =====
-- bot/app: the Telegram bot's client of the REST API, its token session, and the values that it reads.
pub mod Outcome
pub mod Schemas
pub mod Identity
pub mod Storage
pub mod Session
pub mod Client
pub mod Service
pub mod Messages
pub mod Handlers
pub mod Keyboards
