-- ===== src/Exceptions.antt =====
-- include/okssystem/exceptions.hpp: the messages of the issue classes. The names in them are C
-- strings. How ERS puts the message of a class to that of its base is a parameter, whose arguments
-- are the message of the base and the own one.
use okssystem.Prelude.{
  ℕ, [], ◌∷◌, ◌++◌, Text, codes, print_int, print_integer, Option, none, some, Issue, exception,
  not_found_issue, alloc_issue, execution_issue, termination_issue, signal_issue, no_user_issue,
  oks_system_call_issue, open_file_issue, read_issue, write_issue, close_file_issue,
  remove_file_issue, rename_file_issue, assertion, out_of_range, memory_fault, stack_overflow,
}
pub mod Codes

abbrev pub quoted : Text → Text
quoted name = b'"' ∷ (name ++ (b'"' ∷ []))

-- `error` is an `int`.
unfoldable pub posix_message : ℕ → Text
unfolding print_int
posix_message error = codes " (Error code = " ++ (print_int error ++ codes ")")

-- What a class derived from `PosixIssue` writes itself, and the error code of its base; nothing for
-- the other classes.
unfoldable pub derived_message : Issue → Option (ℕ × Text)
unfolding print_int print_integer
derived_message (alloc_issue error size) =
    some
      (error, codes "Request for allocating " ++ (print_int size ++ codes " bytes of memory fails"))
derived_message (execution_issue error command status) = some (
  error,
  codes "Execution of the "
      ++ (quoted command
          ++ (codes " command fails with " ++ (print_integer status ++ codes " status"))),
)
derived_message (termination_issue error status) =
    some (error, codes "Process terminated with the " ++ (print_integer status ++ codes " status"))
derived_message (signal_issue error signal) =
    some
      (error, codes "Process has been terminated by the " ++ (print_int signal ++ codes " signal"))
derived_message (no_user_issue error name id) = some (
  error,
  codes "User with (name:id)=(" ++ (name ++ (b':' ∷ (print_int id ++ codes ") does not exist"))),
)
derived_message (oks_system_call_issue error name action) =
    some (error, codes "OksSystem call " ++ (quoted name ++ (codes " fails " ++ action)))
derived_message (open_file_issue error name) =
    some (error, codes "Can not open file " ++ quoted name)
derived_message (read_issue error name) =
    some (error, codes "Can not read from file " ++ quoted name)
derived_message (write_issue error name) =
    some (error, codes "Can not write to file " ++ quoted name)
derived_message (close_file_issue error name) =
    some (error, codes "Can not close file " ++ quoted name)
derived_message (remove_file_issue error name) =
    some (error, codes "Can not remove file " ++ quoted name)
derived_message (rename_file_issue error source dest) =
    some
      (error, codes "Can not rename file " ++ (quoted source ++ (codes " to file " ++ quoted dest)))
derived_message (exception text) = none
derived_message (not_found_issue name) = none
derived_message assertion = none
derived_message out_of_range = none
derived_message memory_fault = none
derived_message stack_overflow = none

-- `Exception`, the base of the others, writes nothing itself; the issues of no class have no message.
unfoldable pub plain_message : (Text → Text → Text) → Issue → Option Text
plain_message prepend (exception text) = some text
plain_message prepend (not_found_issue name) =
    some (prepend [] (codes "Object " ++ (quoted name ++ codes " not found")))
plain_message prepend _ = none

unfoldable pub message : (Text → Text → Text) → Issue → Option Text
unfolding posix_message derived_message plain_message
message prepend issue = elim (derived_message issue) [
  | some (error, own) ↦ some (prepend (prepend [] (posix_message error)) own)
  | none ↦ plain_message prepend issue
]
