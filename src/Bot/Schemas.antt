-- ===== src/Bot/Schemas.antt =====
-- bot/app/api/schemas.py: the values that the bot reads from the responses.
pub mod Fields
pub mod Catalogue
pub mod Purchases
pub mod Yields
