-- ===== src/Router.antt =====
-- The file-system router of packages/vais-web/packages/kit/src/router: route trees, URL matching,
-- and what a matched route resolves to.
pub mod Types
pub mod Split
pub mod Order
pub mod Matcher
pub mod Tree
pub mod Resolver
pub mod Groups
mod Tests
mod BuildTests
