-- ===== src/I18n.antt =====
-- The package i18n: messages, their translation, and locales in paths.
pub mod Locales
pub mod Messages
mod Tests
