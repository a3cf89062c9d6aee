-- ===== src/Download.antt =====
-- Downloads (internal/server/handlers_download.go): how the content of a file is put together from
-- its chunks, whole or in part, and the parsing of a Range header.
pub mod Range
pub mod Stream
