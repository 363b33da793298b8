-- ===== src/FifoConnection/Exchange.antt =====
-- The static methods `read_message` and `send_message`, which open a descriptor for one message.
pub mod Closing
pub mod Delivery
use okssystem.Prelude.{◌≡◌, ◌⊎◌, inl, inr, refl, Bool, true, false, arith, Issue, ok, err}
use okssystem.Calls.{UserCalls, FileCalls, IoCalls, Answer-cases}
use okssystem.File.Object.{File, exists, is_fifo, get_mode, file_status, mode_is_fifo}
use okssystem.FifoConnection.{check_fifo, warn_no_fifo}

-- The two checks throw and change nothing, or they may have given a warning.
pub check_fifo_cases :
    {W : Type 0} (users : UserCalls W) (files : FileCalls W) (io : IoCalls W) (f : File) (w : W)
    → ((fifo : Bool) × (check_fifo users files io f w
          ≡ ok tt (warn_no_fifo users files io fifo f w)))
      ⊎ ((e : Issue) × (check_fifo users files io f w ≡ err e w))
unfolding check_fifo exists is_fifo get_mode file_status
check_fifo_cases users files io f w = elim (Answer-cases (files.stat f.full_name w)) [
  | inl (st, e) ↦ inl (mode_is_fifo st.st_mode, ground (arith, e))
  | inr (errno, e) ↦ inr (Issue.assertion, ground (arith, e))
]
