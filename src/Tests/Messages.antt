-- ===== src/Tests/Messages.antt =====
-- The messages of issues.
use okssystem.Prelude.{◌≡◌, refl, some, Text, codes, negsuc, ◌++◌, execution_issue, arith}
use okssystem.Exceptions.{message}
use okssystem.Exceptions.Codes.{last_code, message-code}

abbrev in_front : Text → Text → Text
in_front base own = own ++ base

message-code_example :
    (text : Text) × (message in_front (execution_issue 2 (codes "/bin/ls -l") (negsuc 0))
      ≡ some text)
    × (last_code 0 text ≡ 2)
message-code_example =
    message-code in_front (λ base own. refl) (execution_issue 2 (codes "/bin/ls -l") (negsuc 0)) 2
      refl (omega arith)
