-- ===== src/Executable/Mask/Redirected.antt =====
-- The signal mask behind `pipe_out`.
use okssystem.Prelude.{
  ℕ, ◌≡◌, ◌⊎◌, inl, inr, refl, ◌∙◌, ap, true, false, List, arith, Text, pos, close_file_issue,
  open_file_issue, M, Out, ok, err,
}
use okssystem.Calls.{
  Answer-cases, Forked, in_child, in_parent, no_child, SpawnCalls, IoCalls, UserCalls, FileCalls,
}
use okssystem.StringMemoryArea.Maps.{StrMap}
use okssystem.File.Object.{File}
use okssystem.Descriptor.{Descriptor, destroy, close_safe, open_descriptor, flags}
use okssystem.Process.{Process}
use okssystem.Executable.{Executable, Exec, exec, exec_env, to_string}
use okssystem.Executable.Start.{Run, parent, all_signals, restore_mask, default_signals}
use okssystem.Executable.Redirect.{
  Streams, destroyed, destroy_streams, child_streams, unwind, scoped, run_redirected,
  after_fork_redirected, open_streams, after_open, redirected, pipe_out, pipe_out_env,
}
use okssystem.Executable.Mask.{
  AtEnd, IsMask, exec_world, exec-exec_world, exec_env-exec_world, child_mask,
}

module _ {W : Type 0} (spawn : SpawnCalls W) (io : IoCalls W) (mask : W → ℕ)
    (laws : IsMask spawn io mask) where
  -- What opening files comes to: the mask stays, and an issue is one of `open`.
  abbrev Opens : {A : Type 0} → ℕ → Out W A → Type 0
  Opens m (ok a w) = mask w ≡ m
  Opens m (err e w) =
      (mask w ≡ m) × ((errno : ℕ) × (name : Text) × (e ≡ open_file_issue errno name))

  open_descriptor-Opens :
      (users : UserCalls W) (files : FileCalls W) (f : File) (i_flags perm m : ℕ) (w : W)
      → mask w ≡ m
      → Opens m (open_descriptor users files io f i_flags perm w)
  unfolding open_descriptor
  open_descriptor-Opens users files f i_flags perm m w h =
      let (result, v) = io.open_file f.full_name i_flags perm w in
      let opened = laws.open_keeps f.full_name i_flags perm w in
      elim (Answer-cases result) [
        | inl (fd, e) ↦ ground (arith, e, opened, laws.fchmod_keeps (pos fd) perm v)
        | inr (errno, e) ↦ rw (e, Opens) (opened ∙ h, (errno, f.full_name, refl))
      ]

  destroyed-mask : (d : Descriptor) (w : W) → mask (destroyed spawn io d w) ≡ mask w
  unfolding destroy close_safe
  destroyed-mask d w =
      let (result, v) = io.close d.m_fd w in
      let closed = laws.close_keeps d.m_fd w in
      elim (Answer-cases result) [
        | inl (u, e) ↦ ground (arith, e, closed)
        | inr (errno, e) ↦
            ground (arith, e, closed, laws.warning_keeps (close_file_issue errno d.m_name) v)
      ]

  destroy_streams-mask : (s : Streams) (w : W) → mask (destroy_streams spawn io s w) ≡ mask w
  destroy_streams-mask s w =
      let w1 = destroyed spawn io s.error w in
      destroyed-mask s.input (destroyed spawn io s.output w1)
      ∙ destroyed-mask s.output w1
      ∙ destroyed-mask s.error w

  child_streams-mask : (s : Streams) (w : W) → mask (child_streams spawn io s w) ≡ mask w
  child_streams-mask s w =
      laws.close_keeps _ _
      ∙ laws.close_keeps _ _
      ∙ laws.close_keeps _ _
      ∙ laws.dup2_keeps _ _ _
      ∙ laws.dup2_keeps _ _ _
      ∙ laws.dup2_keeps _ _ _

  unwind-Opens :
      {A : Type 0} (m : ℕ) (d : Descriptor) (o : Out W A)
      → Opens m o
      → Opens m (unwind spawn io d o)
  unwind-Opens m d (ok a w) h = h
  unwind-Opens m d (err e w) (h, opened) = (destroyed-mask d w ∙ h, opened)

  scoped-Opens :
      {A : Type 0} (m : ℕ) (k : Descriptor → M W A) (o : Out W Descriptor)
      → Opens m o
      → ((d : Descriptor) (w : W) → mask w ≡ m → Opens m (k d w))
      → Opens m (scoped spawn io k o)
  scoped-Opens m k (ok d w) h next = unwind-Opens m d (k d w) (next d w h)
  scoped-Opens m k (err e w) h next = h

  open_streams-Opens :
      (users : UserCalls W) (files : FileCalls W) (a b c : File) (perm m : ℕ) (w : W)
      → mask w ≡ m
      → Opens m (open_streams users files spawn io a b c perm w)
  unfolding open_streams
  open_streams-Opens users files a b c perm m w h =
      let opens = open_descriptor-Opens users files in
      scoped-Opens m _ _ (opens a (flags true false) perm m w h) λ input v hv.
        scoped-Opens m _ _ (opens b (flags false true) perm m v hv) λ output u hu.
          scoped-Opens m
            (λ error t. ok (record { input = input; output = output; error = error }) t) _
            (opens c (flags false true) perm m u hu) λ error t ht. ht

  run_redirected-mask :
      (m : ℕ) (streams : Streams) (run : W → Exec W) (name : Text)
      → ((v : W) → exec_world (run v) ≡ v)
      → (answer : Forked) (w : W)
      → AtEnd (λ v. mask v ≡ m) (after_fork_redirected spawn io m streams run name answer w)
  run_redirected-mask m streams run name same in_child w =
      let v = restore_mask spawn io m (default_signals spawn io w) in
      let u = child_streams spawn io streams v in
      child_mask spawn io mask laws m (run u)
        (ap mask (same u) ∙ child_streams-mask streams v ∙ laws.sets m (default_signals spawn io w))
  run_redirected-mask m streams run name same (in_parent id) w =
      destroy_streams-mask streams (restore_mask spawn io m w) ∙ laws.sets m w
  run_redirected-mask m streams run name same (no_child errno) w =
      destroy_streams-mask streams (restore_mask spawn io m w) ∙ laws.sets m w

  -- The two ways that `pipe_out` ends.
  abbrev pub Redirects : W → Run W W Process → Type 0
  Redirects w run =
      AtEnd (λ v. mask v ≡ mask w) run
      ⊎ ((errno : ℕ) × (name : Text) × (v : W) × (run ≡ parent (err (open_file_issue errno name) v))
          × (mask v ≡ all_signals))

  after_open-Redirects :
      (run : W → Exec W) (name : Text) (w : W)
      → ((v : W) → exec_world (run v) ≡ v)
      → (o : Out W Streams) → Opens all_signals o
      → Redirects w (after_open spawn io (mask w) run name o)
  unfolding after_open run_redirected
  after_open-Redirects run name w same (ok streams v) h =
      inl (run_redirected-mask (mask w) streams run name same (spawn.fork v).0 (spawn.fork v).1)
  after_open-Redirects run name w same (err e v) (h, (errno, path, is)) =
      inr (errno, path, v, ap (λ x. parent (err x v)) is, h)

  redirected-Redirects :
      (users : UserCalls W) (files : FileCalls W) (a b c : File) (perm : ℕ) (run : W → Exec W)
      (name : Text) (w : W)
      → ((v : W) → exec_world (run v) ≡ v)
      → Redirects w (redirected users files spawn io a b c perm run name w)
  unfolding redirected
  redirected-Redirects users files a b c perm run name w same =
      let w' = (spawn.sigmask all_signals w).1 in
      rw (laws.gives all_signals w) (
        after_open-Redirects run name w same (open_streams users files spawn io a b c perm w')
          (open_streams-Opens users files a b c perm all_signals w' (laws.sets all_signals w)))

  -- If `sigmask` sets the signal mask and gives the old one, and the calls on descriptors leave it
  -- alone (`IsMask`): both forms of `pipe_out` leave the caller with the mask that it had, and a
  -- program that they start runs with this mask; or one of the three files could not be opened, and
  -- the caller is left with all signals blocked.
  pub pipe_out-mask :
      (users : UserCalls W) (files : FileCalls W) (e : Executable) (params : List Text)
      (envs : StrMap) (a b c : File) (perm : ℕ) (w : W)
      → Redirects w (pipe_out users files spawn io e params a b c perm w)
        × Redirects w (pipe_out_env users files spawn io e params envs a b c perm w)
  unfolding pipe_out pipe_out_env
  pipe_out-mask users files e params envs a b c perm w = (
    redirected-Redirects users files a b c perm (exec spawn e params) (to_string e params) w
        (exec-exec_world spawn e params),
    redirected-Redirects users files a b c perm (exec_env spawn e params envs) (to_string e params)
        w (exec_env-exec_world spawn e params envs),
  )
