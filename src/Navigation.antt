-- ===== src/Navigation.antt =====
-- native/src/navigation: the navigators of native apps, Stack (stack.ts), Tabs (tabs.ts) and Drawer
-- (drawer.ts). A call gives `none` where the code throws, which is before it changes anything.
pub mod Screens
pub mod Stack
pub mod Tabs
pub mod Drawer
mod Tests
