-- ===== src/Bot.antt =====
-- The bot's handlers: app/handlers and app/middlewares/auth.py.
pub mod Context
pub mod Buttons
pub mod Texts
pub mod Documents
pub mod Users
pub mod Router
pub mod Rights
pub mod Strangers
pub mod Kept
pub mod Answers
pub mod Menus
