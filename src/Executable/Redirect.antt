-- ===== src/Executable/Redirect.antt =====
-- src/Executable.cpp: `pipe_out`, which starts a program with its three streams in files.
use okssystem.Prelude.{ℕ, true, false, List, Text, pos, M, Out, ok, err}
use okssystem.Calls.{
  Forked, in_child, in_parent, no_child, SpawnCalls, IoCalls, UserCalls, FileCalls,
}
use okssystem.StringMemoryArea.Maps.{StrMap}
use okssystem.File.Object.{File}
use okssystem.Descriptor.{Descriptor, flags, open_descriptor, destroy}
use okssystem.Process.{Process}
use okssystem.Executable.{Executable, Exec, exec, exec_env, to_string}
use okssystem.Executable.Start.{
  Run, parent, child, all_signals, exec_or_exit, restore_mask, default_signals, fork_issue,
}

-- The three descriptors `in`, `out` and `err`.
pub record Streams : Type 0 where
  pub input : Descriptor
  pub output : Descriptor
  pub error : Descriptor

module _ {W : Type 0} (spawn : SpawnCalls W) (io : IoCalls W) where
  -- The destructor of one descriptor.
  abbrev pub destroyed : Descriptor → W → W
  destroyed d w = destroy io (record { descriptor = d; world = w })

  -- The destructors at the end of the method, the last descriptor first.
  abbrev pub destroy_streams : Streams → W → W
  destroy_streams s w = destroyed s.input (destroyed s.output (destroyed s.error w))

  -- The system behind an issue, after the destructor of a descriptor.
  abbrev pub unwind : {A : Type 0} → Descriptor → Out W A → Out W A
  unwind d (ok a w) = ok a w
  unwind d (err e w) = err e (destroyed d w)

  -- A constructor, and what follows it in its scope.
  abbrev pub scoped : {A : Type 0} → (Descriptor → M W A) → Out W Descriptor → Out W A
  scoped k (ok d w) = unwind d (k d w)
  scoped k (err e w) = err e w

  -- `dup2` and `close` of the three descriptors in the child; their results are not looked at.
  abbrev pub child_streams : Streams → W → W
  child_streams s w =
      let dup = λ (d : Descriptor) (n : ℕ) (v : W). spawn.dup2 d.m_fd (pos n) v in
      let shut = λ (d : Descriptor) (v : W). (io.close d.m_fd v).1 in
      shut s.error (shut s.output (shut s.input (dup s.error 2 (dup s.output 1 (dup s.input 0 w)))))

  -- `pipe_out` behind the call of `fork`; in the parent the descriptors are destroyed at the end.
  abbrev pub after_fork_redirected :
      ℕ → Streams → (W → Exec W) → Text → Forked → W → Run W W Process
  after_fork_redirected old_set streams run name in_child w = child (
      exec_or_exit spawn io
        (run (child_streams streams (restore_mask spawn io old_set (default_signals spawn io w)))))
  after_fork_redirected old_set streams run name (in_parent id) w = parent (
      ok (record { m_process_id = pos id; m_process_name = name })
        (destroy_streams streams (restore_mask spawn io old_set w)))
  after_fork_redirected old_set streams run name (no_child errno) w =
      parent (
        err (fork_issue spawn io errno) (destroy_streams streams (restore_mask spawn io old_set w)))

  unfoldable pub run_redirected : ℕ → Streams → (W → Exec W) → Text → W → Run W W Process
  unfolding destroy
  run_redirected old_set streams run name w =
      let (answer, w') = spawn.fork w in after_fork_redirected old_set streams run name answer w'

  -- What follows the constructors: an issue of theirs leaves all signals blocked.
  unfoldable pub after_open : ℕ → (W → Exec W) → Text → Out W Streams → Run W W Process
  unfolding run_redirected
  after_open old_set run name (ok streams w) = run_redirected old_set streams run name w
  after_open old_set run name (err e w) = parent (err e w)

module _ {W : Type 0} (users : UserCalls W) (files : FileCalls W) (spawn : SpawnCalls W)
    (io : IoCalls W) where
  -- The constructors of the three descriptors; those that exist are destroyed behind an issue.
  unfoldable pub open_streams : File → File → File → ℕ → M W Streams
  unfolding open_descriptor flags destroy
  open_streams input_file output_file error_file perm w =
      let open_with = open_descriptor users files io in
      scoped spawn io
        (λ input v.
          scoped spawn io
            (λ output u.
              scoped spawn io
                (λ error t. ok (record { input = input; output = output; error = error }) t)
                (open_with error_file (flags false true) perm u))
            (open_with output_file (flags false true) perm v))
        (open_with input_file (flags true false) perm w)

  -- What the two overloads of `pipe_out` share.
  unfoldable pub redirected : File → File → File → ℕ → (W → Exec W) → Text → W → Run W W Process
  unfolding open_streams after_open
  redirected input_file output_file error_file perm run name w =
      let (old_set, w') = spawn.sigmask all_signals w in
      after_open spawn io old_set run name (open_streams input_file output_file error_file perm w')

  unfoldable pub pipe_out : Executable → List Text → File → File → File → ℕ → W → Run W W Process
  unfolding redirected exec to_string
  pipe_out e params input_file output_file error_file perm =
      redirected input_file output_file error_file perm (exec spawn e params) (to_string e params)

  unfoldable pub pipe_out_env :
      Executable → List Text → StrMap → File → File → File → ℕ → W → Run W W Process
  unfolding redirected exec_env to_string
  pipe_out_env e params envs input_file output_file error_file perm =
      redirected input_file output_file error_file perm (exec_env spawn e params envs)
        (to_string e params)
