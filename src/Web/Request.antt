-- ===== src/Web/Request.antt =====
-- A connection: `client_conn_handler` of src/ob_web_server.c. `Name`, `Length` and `Head` are
-- its loop over the bytes of the request, `Serve` what it does then.
pub mod Name
pub mod FileName
pub mod Length
pub mod ContentLength
pub mod Head
pub mod HeadEnd
pub mod HeadSearch
pub mod Serve
pub mod Replies
pub mod Pages
pub mod Search
pub mod Path
