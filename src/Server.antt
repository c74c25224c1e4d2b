-- ===== src/Server.antt =====
-- The TACACS+ server of internal/tacacs/server: one packet in Server/Dispatch, one connection in
-- Server/Conn; the handler without AAA in Server/Stub.
pub mod Dispatch
pub mod Conn
pub mod Stub
