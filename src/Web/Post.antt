-- ===== src/Web/Post.antt =====
-- `ob_ws_process_post` of src/ob_web_server.c: the fields of a posted text/plain form.
pub mod Rounds
pub mod Form
pub mod Fields
