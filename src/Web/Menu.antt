-- ===== src/Web/Menu.antt =====
-- The menu and the header of a page: `create_menu` and `CreateHeader200` of src/ob_web_server.c.
pub mod Build
pub mod Sizes
pub mod Header
