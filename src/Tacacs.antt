-- ===== src/Tacacs.antt =====
-- The TACACS+ wire codec of internal/tacacs/codec.
pub mod Errors
pub mod Constants
pub mod Cursor
pub mod Args
pub mod Authen
pub mod Author
pub mod Acct
pub mod Header
pub mod Sequence
pub mod Version
pub mod Chap
pub mod Obfuscate
