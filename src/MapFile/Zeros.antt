-- ===== src/MapFile/Zeros.antt =====
-- What `zero` writes.
use native.Mathlib.Nat.{mod-add-mod, div-add-mod', mod-eq_of_lt}
use okssystem.Prelude.{
  ℕ, zero, suc, ◌+◌, ◌*◌, ◌/◌, ◌%◌, ◌^◌, ◌<◌, ◌≡◌, refl, sym, ap, ◌∙◌, true, false, arith, ◌∷◌,
  ◌++◌, append_assoc, append-nil, replicate, Text, ℤ, pos, negsuc, ok, state_of,
}
use okssystem.Calls.{done, UserCalls, FileCalls, IoCalls}
use okssystem.Descriptor.{Descriptor, Held, flags, write, close, destroy, open_descriptor}
use okssystem.MapFile.{MapFile, write_pages, zero_file, int_rounds}

-- Files can be opened, written and closed; `written` is what `write` has been given so far, one text
-- behind the other.
pub record IsDisk {W : Type 0} (io : IoCalls W) (written : W → Text) (page_size : ℕ) : Type 0 where
  pub pages : (w : W) → io.getpagesize w ≡ page_size
  pub opens : (name : Text) (f p : ℕ) (w : W) → (n : ℕ) × ((io.open_file name f p w).0 ≡ done n)
  pub open_keeps : (name : Text) (f p : ℕ) (w : W) → written (io.open_file name f p w).1 ≡ written w
  pub fchmod_keeps : (fd : ℤ) (p : ℕ) (w : W) → written (io.fchmod fd p w) ≡ written w
  pub writes :
      (fd : ℤ) (bytes : Text) (w : W)
      → (n : ℕ) × ((io.write fd bytes w).0 ≡ done n)
        × (written (io.write fd bytes w).1 ≡ written w ++ bytes)
  pub closes :
      (fd : ℤ) (w : W) → ((io.close fd w).0 ≡ done tt) × (written (io.close fd w).1 ≡ written w)

replicate-add : (m n : ℕ) → replicate m (zero) ++ replicate n zero ≡ replicate (m + n) zero
replicate-add zero n = let e : zero + n ≡ n = omega arith in rw e refl
replicate-add (suc m) n =
    let e : suc m + n ≡ suc (m + n) = omega arith in rw e (ap (λ t. 0 ∷ t) (replicate-add m n))

-- All the pages of a size that is made of whole pages.
pages-size : (s o p : ℕ) → s % p ≡ 0 → o % p ≡ 0 → (s + o) / p * p ≡ s + o
pages-size s o p hs ho =
    let start : (zero + o) % p ≡ o % p = ap (λ k. k % p) (omega arith) in
    let rest : (s + o) % p ≡ 0 = sym (mod-add-mod s p o) ∙ ap (λ k. (k + o) % p) hs ∙ start ∙ ho in
    omega (arith, rest, div-add-mod' (s + o) p)

int_rounds_small : (n : ℕ) → n < 2 ^ 31 → int_rounds n ≡ n
unfolding int_rounds
int_rounds_small n h = ground (arith, h)

module _ {W : Type 0} (users : UserCalls W) (files : FileCalls W) (io : IoCalls W)
    (written : W → Text) (page_size : ℕ) (laws : IsDisk io written page_size) where
  suc_pages : (pages : ℕ) → page_size + pages * page_size ≡ suc pages * page_size
  suc_pages pages = grind arith

  write_pages_lem :
      (pages : ℕ) (held : Held W)
      → (w : W) × (write_pages users files io pages (replicate page_size 0) held
          ≡ ok tt (record held { world = w }))
        × (written w ≡ written held.world ++ replicate (pages * page_size) 0)
  unfolding write_pages write
  write_pages_lem zero held =
      let none_left : zero * page_size ≡ zero = omega arith in
      (held.world, refl, rw none_left (sym (append-nil (written held.world))))
  write_pages_lem (suc pages) held =
      let page = replicate page_size 0 in
      let (n, took, stands) = laws.writes held.descriptor.m_fd page held.world in
      let w1 = (io.write held.descriptor.m_fd page held.world).1 in
      let (w, rest, all) = write_pages_lem pages (record held { world = w1 }) in
      let size : page_size + pages * page_size ≡ suc pages * page_size = suc_pages pages in
      (
        w,
        ground (arith, took, rest),
        all
            ∙ ap (λ t. t ++ replicate (pages * page_size) 0) stands
            ∙ append_assoc (written held.world) page (replicate (pages * page_size) 0)
            ∙ ap (λ t. written held.world ++ t)
                (replicate-add page_size (pages * page_size) ∙ ap (λ k. replicate k 0) size),
      )

  -- The descriptor that `zero` opens.
  zero_opens :
      (m : MapFile) (w : W)
      → (d : Descriptor) × (v : W) × (open_descriptor users files io m.m_file
            (flags false true)
            m.m_map_permission
            w
          ≡ ok d v)
        × (written v ≡ written w)
  unfolding open_descriptor
  zero_opens m w =
      let name = m.m_file.full_name in
      let (n, e) = laws.opens name (flags false true) m.m_map_permission w in
      let v = (io.open_file name (flags false true) m.m_map_permission w).1 in
      let same = laws.open_keeps name (flags false true) m.m_map_permission w in
      let chmod_same = laws.fchmod_keeps (pos n) m.m_map_permission v in
      (
        record { m_fd = pos n; m_name = name },
        state_of (open_descriptor users files io m.m_file (flags false true) m.m_map_permission w),
        ground (arith, e),
        ground (arith, e, same, chmod_same),
      )

  close_written :
      (held : Held W)
      → (h : Held W) × (close io held ≡ ok tt h) × (written (destroy io h) ≡ written held.world)
  unfolding close destroy
  close_written held =
      let (done_well, same) = laws.closes held.descriptor.m_fd held.world in
      (
        record {
          descriptor = record held.descriptor { m_fd = negsuc 0 };
          world = (io.close held.descriptor.m_fd held.world).1;
        },
        ground (arith, done_well),
        ground (arith, same),
      )

  zero_steps :
      (m : MapFile) (w w1 : W) (d : Descriptor) (k : ℕ) (held h : Held W)
      → m.m_map_write ≡ true
      → open_descriptor users files io m.m_file (flags false true) m.m_map_permission w ≡ ok d w1
      → int_rounds ((m.m_map_size + m.m_map_offset) % 2 ^ 64 / io.getpagesize w1) ≡ k
      → write_pages users files io k
          (replicate (io.getpagesize w1) 0)
          (record { descriptor = d; world = w1 })
        ≡ ok tt held
      → close io held ≡ ok tt h
      → zero_file users files io m w ≡ ok tt (destroy io h)
  unfolding zero_file
  zero_steps m w w1 d k held h writable opened rounds wrote closed =
      rw (writable, zero_file) (rw opened (rw rounds (rw wrote (rw closed refl))))

  -- On a system as `IsDisk` describes it, where files can be opened, written and closed: `zero` of a
  -- writable map whose size and offset are whole pages, less than 2^31 of them together and less than
  -- 2^64 bytes, returns, and what it has given to `write` is one zero byte for each byte of the size
  -- and of the offset.
  pub zero_file_lem :
      (m : MapFile) (w : W)
      → m.m_map_write ≡ true
      → m.m_map_size % page_size ≡ 0
      → m.m_map_offset % page_size ≡ 0
      → m.m_map_size + m.m_map_offset < 2 ^ 64
      → (m.m_map_size + m.m_map_offset) / page_size < 2 ^ 31
      → (v : W) × (zero_file users files io m w ≡ ok tt v)
        × (written v ≡ written w ++ replicate (m.m_map_size + m.m_map_offset) 0)
  unfolding zero_file
  zero_file_lem m w writable hs ho whole few =
      let total = m.m_map_size + m.m_map_offset in
      let (d, w1, opened, same) = zero_opens m w in
      let (w2, wrote, all) =
        write_pages_lem (total / page_size) (record { descriptor = d; world = w1 }) in
      let (h, closed, kept) = close_written (record { descriptor = d; world = w2 }) in
      let rounds : int_rounds (total % 2 ^ 64 / io.getpagesize w1) ≡ total / page_size =
        ap (λ k. int_rounds (total % 2 ^ 64 / k)) (laws.pages w1)
        ∙ ap (λ k. int_rounds (k / page_size)) (mod-eq_of_lt whole)
        ∙ int_rounds_small (total / page_size) few in
      (
        destroy io h,
        zero_steps m w w1 d (total / page_size) (record { descriptor = d; world = w2 }) h writable
            opened rounds (rw (laws.pages w1) wrote) closed,
        kept
            ∙ all
            ∙ ap (λ t. t ++ replicate (total / page_size * page_size) 0) same
            ∙ ap (λ k. written w ++ replicate k 0)
                (pages-size m.m_map_size m.m_map_offset page_size hs ho),
      )
