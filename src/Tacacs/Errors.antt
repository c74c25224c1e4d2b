-- ===== src/Tacacs/Errors.antt =====
-- The error values of internal/tacacs/codec/errors.go and header.go. A wrapped error
-- (`fmt.Errorf("%w: ...")`) is the value that `errors.Is` finds in it: message texts are left out.

pub data Error : Type 0 where
  length_mismatch non_printable field_too_long too_many_args argument : Error
  chap_length mschap_length acct_flags follow : Error
  seq_unexpected seq_parity session_closed session_mismatch : Error
  premature_packet too_many_continues entropy : Error
  header_short unsupported_major unknown_type seq_zero seq_wrap body_too_large body_short : Error
