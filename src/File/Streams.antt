-- ===== src/File/Streams.antt =====
-- src/File.cpp: the streams that a file hands out.
use okssystem.Prelude.{ℕ, Bool, open_file_issue, M}
use okssystem.Calls.{StreamCalls, checked}
use okssystem.File.Object.{File}

module _ {W : Type 0} (streams : StreamCalls W) where
  unfoldable pub input : File → M W ℕ
  input f w = checked (streams.ifstream f.full_name w) (λ errno. open_file_issue errno f.full_name)

  unfoldable pub output : Bool → File → M W ℕ
  output append f w =
      checked (streams.ofstream f.full_name append w) (λ errno. open_file_issue errno f.full_name)
