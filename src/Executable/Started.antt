-- ===== src/Executable/Started.antt =====
-- The program that a child of `start` becomes.
use okssystem.Prelude.{ℕ, ◌≡◌, refl, true, none, some, List, [], ◌∷◌, map, Text}
use okssystem.StringMemoryArea.{c_str}
use okssystem.Calls.{
  Answer, done, failed, Forked, in_child, in_parent, no_child, SpawnCalls, IoCalls,
}
use okssystem.Process.{Process}
use okssystem.Executable.{Executable, Program, Exec, exec, to_string}
use okssystem.Executable.Arguments.{Executes, program_of, exec-Executes}
use okssystem.Executable.Start.{
  Run, parent, child, runs, exits, exec_or_exit, restore_mask, default_signals, after_fork, start,
  all_signals,
}

-- If a run ends in a program, it is this one.
abbrev pub Becomes : {W S A : Type 0} → Program → Run W S A → Type 0
Becomes program (child (runs p w)) = p ≡ program
Becomes program (child (exits status w)) = Unit
Becomes program (parent o) = Unit

module _ {W : Type 0} (spawn : SpawnCalls W) (io : IoCalls W) where
  exec_or_exit-Becomes :
      (program : Program) (answer : Answer (Unit {0})) (x : Exec W) (w : W)
      → Executes program answer w x
      → Becomes {S = W} {A = Process} program (child (exec_or_exit spawn io x))
  exec_or_exit-Becomes program (done u) x w e = rw e refl
  exec_or_exit-Becomes program (failed errno) x w e = rw e tt

  after_fork-Becomes :
      (program : Program) (old_set : ℕ) (prepare : W → W) (run : W → Exec W) (name : Text)
      → (call : W → Answer (Unit {0})) → ((v : W) → Executes program (call v) v (run v))
      → (answer : Forked) (w : W)
      → Becomes program (after_fork spawn io old_set prepare run name answer w)
  after_fork-Becomes program old_set prepare run name call all in_child w =
      let v = restore_mask spawn io old_set (prepare w) in
      exec_or_exit-Becomes program (call v) (run v) v (all v)
  after_fork-Becomes program old_set prepare run name call all (in_parent id) w = tt
  after_fork-Becomes program old_set prepare run name call all (no_child errno) w = tt

  -- With memory for the copies, a child of `start` that becomes a program becomes that of the file,
  -- with its name and the parameters as arguments and the environment of the caller.
  pub start-Becomes :
      ((size : ℕ) (w : W) → spawn.calloc size w ≡ true)
      → ((s : Text) (w : W) → spawn.strdup s w ≡ some s)
      → (e : Executable) (params : List Text) (w : W)
      → Becomes (program_of e params none) (start spawn io e params w)
  unfolding start
  start-Becomes memory copies e params w =
      let (old_set, w1) = spawn.sigmask all_signals w in
      let (answer, w2) = spawn.fork w1 in
      after_fork-Becomes (program_of e params none) old_set (default_signals spawn io)
        (exec spawn e params) (to_string e params)
        (spawn.execv (c_str e.file.full_name) (c_str e.file.full_name ∷ map c_str params))
        (λ v. (exec-Executes spawn e params [] v (λ size. memory size v) (λ s. copies s v)).0)
        answer w2
