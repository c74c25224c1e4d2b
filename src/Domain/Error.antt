-- ===== src/Domain/Error.antt =====
-- The shared error of internal/domain/error.go, and its text. Details are left out.
use Prim.Native.Char.{code}
use go_lab_tacacs_mcp.Common.{[], if◌then◌else◌, length, not, ◌&&◌, ◌++◌, ◌==◌}
use go_lab_tacacs_mcp.Common.Text.{Str, text}

pub data Code : Type 0 where
  invalid_argument regex_invalid : Code

unfoldable pub code_string : Code → Str
code_string invalid_argument = text "invalid_argument"
code_string regex_invalid = text "REGEX_INVALID"

-- Go's `Error`.
pub record DomainError : Type 0 where
  pub code : Code
  pub message : Str
  pub path : Str

unfoldable pub new_error : Code → Str → DomainError
new_error code message = record { code = code; message = message; path = [] }

unfoldable pub with_path : DomainError → Str → DomainError
with_path e path = record e { path = path }

-- `e.Error()`
unfoldable pub error_string : DomainError → Str
unfolding code_string
error_string e =
    if not (length e.path == 0) && not (length e.message == 0)
    then code_string e.code ++ (text " at " ++ (e.path ++ (text ": " ++ e.message)))
    else if not (length e.path == 0)
    then code_string e.code ++ (text " at " ++ e.path)
    else if not (length e.message == 0)
    then code_string e.code ++ (text ": " ++ e.message)
    else code_string e.code
