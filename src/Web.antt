-- ===== src/Web.antt =====
-- The web server, src/ob_web_server.c.
pub mod Net
pub mod Send
pub mod Page
pub mod Request
pub mod Post
pub mod Register
pub mod Menu
pub mod Slots
pub mod Listening
pub mod Listening6
pub mod Threads
pub mod Life
