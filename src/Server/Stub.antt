-- ===== src/Server/Stub.antt =====
-- The handler that answers without AAA: `Stub` of handler.go. It has no state and no `EndSession`.
use go_lab_tacacs_mcp.Common.{if◌then◌else◌, not, some}
use go_lab_tacacs_mcp.Server.Dispatch.{Handler, abort, acct_with, authen_with, author_with}
use go_lab_tacacs_mcp.Tacacs.Acct.{AcctReply, AcctRequest, valid_acct_flags}
use go_lab_tacacs_mcp.Tacacs.Authen.{AuthenContinue, AuthenReply}
use go_lab_tacacs_mcp.Tacacs.Constants.{
  acct_status_error, acct_status_success, authen_status_error, authen_status_fail,
  author_status_fail,
}

unfoldable pub stub_continue : AuthenContinue → AuthenReply
stub_continue cont =
    if abort cont then authen_with authen_status_fail else authen_with authen_status_error

unfoldable pub stub_account : AcctRequest → AcctReply
stub_account req =
    if not (valid_acct_flags req.flags)
    then acct_with acct_status_error
    else acct_with acct_status_success

unfoldable pub stub : Handler (Unit {0})
unfolding stub_continue stub_account
stub = record {
  authen_start = λ st env start. (st, some (authen_with authen_status_error));
  authen_continue = λ st env cont. (st, some (stub_continue cont));
  authorize = λ st env req. (st, some (author_with author_status_fail));
  account = λ st env req. (st, some (stub_account req));
  end_session = λ st env. st;
}
