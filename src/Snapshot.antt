-- ===== src/Snapshot.antt =====
-- hub/snapshot.py and hubread/snapshot.py: the columnar file of a compiled window.
pub mod Utf8
pub mod Words
pub mod Cursor
pub mod Encode
pub mod Decode
pub mod Rows
pub mod Restores
pub mod RoundTrip
pub mod Truncated
pub mod Refused
