-- ===== src/MapFile.antt =====
-- src/MapFile.cpp: a file that is mapped into memory. Addresses are numbers, 0 is the null pointer,
-- and MAP_FAILED is the address of 64 ones.
pub mod Mapping
pub mod Accounts
pub mod Leaks
pub mod Zeros
use Prim.Native.Nat.{bit_or}
use okssystem.Prelude.{
  ℕ, zero, suc, ◌+◌, ◌-◌, ◌/◌, ◌%◌, ◌^◌, Bool, true, false, not, ◌==◌, ltb, ◌||◌, ◌&&◌,
  if◌then◌else◌, Option, none, some, List, [], ◌∷◌, ◌++◌, replicate, Text, codes, Issue,
  memory_fault, oks_system_call_issue, M, Out, ok, err, pure, throw, ensure, ◌>>=◌, ◌>>◌,
}
use okssystem.Calls.{Answer, done, failed, UserCalls, FileCalls, IoCalls}
use okssystem.File.Object.{File, file}
use okssystem.Descriptor.{Descriptor, Held, flags, open_descriptor, close, destroy, write}

abbrev pub map_failed : ℕ
map_failed = 2 ^ 64 - 1

-- MAP_FILE | MAP_SHARED
abbrev pub map_shared : ℕ
map_shared = 1

-- PROT_READ and PROT_WRITE
abbrev pub protection : Bool → Bool → ℕ
protection read_mode write_mode =
    let prot = if read_mode then bit_or 0 1 else 0 in if write_mode then bit_or prot 2 else prot

pub record MapFile : Type 0 where
  pub m_file : File
  pub m_map_address : ℕ
  pub m_map_size : ℕ
  pub m_map_offset : ℕ
  pub m_map_descriptor : Option Descriptor
  pub m_map_permission : ℕ
  pub m_map_read : Bool
  pub m_map_write : Bool
  pub m_is_mapped : Bool

-- The object and the system around it.
pub record Mapped (W : Type 0) : Type 0 where
  pub map_file : MapFile
  pub world : W

-- `is_loaded`; `address`, `memory_size`, `is_mapped` and `fd` are fields.
abbrev pub is_loaded : MapFile → Bool
is_loaded m = not (m.m_map_address == 0)

-- What `map_mem` stores behind `mmap`.
abbrev pub mapped_at : {W : Type 0} → ℕ → Bool → Mapped W → W → Mapped W
mapped_at address mapped s w = record {
  map_file = record s.map_file { m_map_address = address; m_is_mapped = mapped };
  world = w;
}

-- The rounds of `for(int i=0; i<page_num; i++)`, where `page_num` is the number as an `int`.
unfoldable pub int_rounds : ℕ → ℕ
int_rounds n = let w = n % 2 ^ 32 in if ltb w (2 ^ 31) then w else 0

-- What the stack unwinding or the end of the block does to a local descriptor.
abbrev leave_scope : {W A : Type 0} → (Held W → W) → Out (Held W) A → Out W A
leave_scope destructor (ok a s) = ok a (destructor s)
leave_scope destructor (err e s) = err e (destructor s)

module _ {W : Type 0} (users : UserCalls W) (files : FileCalls W) (io : IoCalls W) where
  -- The constructor.
  unfoldable pub map_file_of : Text → ℕ → ℕ → Bool → Bool → ℕ → M W MapFile
  unfolding file
  map_file_of name s o read_mode write_mode perm = do
    f ← file users files name
    ensure (read_mode || write_mode)
    λ w. (ensure (s % io.getpagesize w == 0) >> ensure (o % io.getpagesize w == 0)) w
    pure record {
      m_file = f;
      m_map_address = 0;
      m_map_size = s;
      m_map_offset = o;
      m_map_descriptor = none;
      m_map_permission = perm;
      m_map_read = read_mode;
      m_map_write = write_mode;
      m_is_mapped = false;
    }

  -- A descriptor that the object holds already is forgotten.
  unfoldable pub open_fd : M (Mapped W) (Unit {0})
  unfolding open_descriptor flags
  open_fd s =
      let m = s.map_file in
      elim (open_descriptor users files io m.m_file (flags m.m_map_read m.m_map_write)
        m.m_map_permission s.world) [
          | ok d w ↦ ok tt (record { map_file = record m { m_map_descriptor = some d }; world = w })
          | err e w ↦ err e (record s { world = w })
        ]

  -- `delete` runs the destructor of the descriptor.
  unfoldable pub close_fd : M (Mapped W) (Unit {0})
  unfolding close destroy
  close_fd s = elim s.map_file.m_map_descriptor [
    | none ↦ err memory_fault s
    | some d ↦ elim (close io (record { descriptor = d; world = s.world })) [
      | ok a held ↦ ok tt (record {
        map_file = record s.map_file { m_map_descriptor = none };
        world = destroy io held;
      })
      | err e held ↦ err e (record {
        map_file = record s.map_file { m_map_descriptor = some held.descriptor };
        world = held.world;
      })
    ]
  ]

  abbrev map_issue : ℕ → Text → MapFile → Issue
  map_issue errno call m = oks_system_call_issue errno call (codes "on file " ++ m.m_file.full_name)

  -- `mmap` may give the address 0 without an error; the issue then has some error code.
  unfoldable pub map_mem : M (Mapped W) (Unit {0})
  map_mem s =
      let m = s.map_file in
      elim m.m_map_descriptor [
        | none ↦ err Issue.assertion s
        | some d ↦
            let (result, w) =
              io.mmap m.m_map_size (protection m.m_map_read m.m_map_write) map_shared d.m_fd
                m.m_map_offset s.world in
            elim result [
              | done zero ↦ err (map_issue 0 (codes "mmap") m) (mapped_at 0 false s w)
              | done (suc a) ↦ ok tt (mapped_at (suc a) true s w)
              | failed errno ↦
                  err (map_issue errno (codes "mmap") m) (mapped_at map_failed false s w)
            ]
      ]

  unfoldable pub unmap_mem : M (Mapped W) (Unit {0})
  unmap_mem s =
      let m = s.map_file in
      if m.m_map_address == 0
      then err Issue.assertion s
      else (let (result, w) = io.munmap m.m_map_address m.m_map_size s.world in
          elim result [
            | done a ↦ ok tt (mapped_at m.m_map_address false s w)
            | failed errno ↦
                err (map_issue errno (codes "munmap") m) (mapped_at m.m_map_address true s w)
          ])

  unfoldable pub map : M (Mapped W) (Unit {0})
  unfolding open_fd map_mem
  map = open_fd >> map_mem

  unfoldable pub unmap : M (Mapped W) (Unit {0})
  unfolding unmap_mem close_fd
  unmap = unmap_mem >> close_fd

  -- The loop of `zero` over the pages.
  unfoldable pub write_pages : ℕ → Text → M (Held W) (Unit {0})
  unfolding write
  write_pages zero buffer held = ok tt held
  write_pages (suc pages) buffer held = elim (write io held.descriptor buffer held.world) [
    | ok n w ↦ write_pages pages buffer (record held { world = w })
    | err e w ↦ err e (record held { world = w })
  ]

  -- `zero`: how many bytes `write` takes is not looked at.
  unfoldable pub zero_file : MapFile → M W (Unit {0})
  unfolding write_pages open_descriptor flags close destroy int_rounds
  zero_file m w =
      (do
        ensure m.m_map_write
        fd ← open_descriptor users files io m.m_file (flags false true) m.m_map_permission
        λ w.
            let page_size = io.getpagesize w in
            let page_num = int_rounds ((m.m_map_size + m.m_map_offset) % 2 ^ 64 / page_size) in
            leave_scope (destroy io) (
              (write_pages page_num (replicate page_size 0) >> close io)
                (record { descriptor = fd; world = w })))
        w

  -- `~MapFile`: an issue that `close_fd` throws leaves the destructor, which ends the program.
  unfoldable pub destroy_map : M (Mapped W) (Unit {0})
  unfolding close_fd
  destroy_map s = elim s.map_file.m_map_descriptor [ none ↦ ok tt s | some d ↦ close_fd s ]
