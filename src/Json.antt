-- ===== src/Json.antt =====
-- crates/bilbo-json/src/json.rs: the lenient JSON parser of the interpreter backend.
-- A text is the list of its bytes, and the cursor `*i` is the part of the text that is still ahead:
-- `b[*i]` is its first byte (`peek`), and a cursor at or past the end is the empty list, since the
-- code treats all such cursors alike.
pub mod Value
pub mod Utf8
pub mod Parser
pub mod Print
pub mod RoundTrip
pub mod Stray
