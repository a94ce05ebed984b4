-- ===== src/Text.antt =====
-- Text as the list of its bytes, and what the programs use of `strings` and `strconv`. White space
-- is the six ASCII bytes that `strings.TrimSpace` takes off; the texts of the programs are ASCII.
mod Bytes
mod Numbers
mod Lines
pub use Bytes.*
pub use Numbers.*
pub use Lines.*
