-- ===== src/Io/Init/Bounds.antt =====
-- The array of blocks, and the index that io_attach and io_pipefd read it at.
use swnet_linux.Base.{ℕ, zero, suc, ◌<◌, ◌≡◌, refl, List, [], ◌∷◌, Option, none, some, true, arith}
use swnet_linux.Base.Int.{ℤ, pos, negsuc}
use swnet_linux.Ncb.{Ncb}
use swnet_linux.Io.Attach.{IoHandles, IoObject, io_pipefd}
use swnet_linux.Io.Init.{
  EpollBlock, IoBlock, Slot, unset, gone, used, ThreadReplies, start_threads, make_pipes,
  io_init_block, threads_of, InitReplies, init_slot,
}

-- The block at an index, where there is one.
abbrev pub get_elem? : List EpollBlock → ℕ → Option EpollBlock
get_elem? [] i = none
get_elem? (b ∷ bs) zero = some b
get_elem? (b ∷ bs) (suc i) = get_elem? bs i

-- A block whose pipe was made, as both loops leave it.
abbrev AreSet : List EpollBlock → Type 0
AreSet [] = Unit {0}
AreSet (b ∷ bs) = ((p : ℤ) × (b.pipefdw ≡ some p)) × AreSet bs

threads_positive : (protocol : ℕ) (nprocs : ℤ) → 0 < threads_of protocol nprocs
unfolding threads_of
threads_positive protocol (negsuc n) = omega arith
threads_positive protocol (pos n) = ground arith

-- The blocks that io_init makes.
abbrev pub blocks_of : InitReplies → ℕ → List EpollBlock
blocks_of r protocol =
    make_pipes r.threads 0 (start_threads r.threads 0 (threads_of protocol r.nprocs))

block_made :
    (r : ℕ → ThreadReplies) (block : IoBlock) (n : ℕ)
    → 0 < n
    → io_init_block true r block n ≡ (
      pos 0,
      record block { divisions = n; epoptr = some (make_pipes r 0 (start_threads r 0 n)) },
    )
unfolding io_init_block
block_made r block zero h = absurd (omega arith)
block_made r block (suc n) h = refl

-- The block that io_init makes, and the handle that it sets.
abbrev made_block : InitReplies → ℕ → IoBlock
made_block r protocol = record {
  protocol = protocol;
  divisions = threads_of protocol r.nprocs;
  epoptr = some (blocks_of r protocol);
}

abbrev pub made_slot : InitReplies → ℕ → Slot
made_slot r protocol = used (made_block r protocol)

-- The system grants what io_init asks for.
pub record IsGranted (r : InitReplies) : Type 0 where
  pub object : r.object ≡ true
  pub referenced : r.referenced ≡ true
  pub memory : r.memory ≡ true

pub init_slot_made :
    (r : InitReplies) (protocol : ℕ)
    → IsGranted r
    → init_slot r protocol unset ≡ (pos 0, made_slot r protocol)
unfolding init_slot
init_slot_made r protocol g =
    rw
      (
        g.object,
        g.referenced,
        g.memory,
        block_made r.threads (record { protocol = protocol; divisions = 0; epoptr = none })
            (threads_of protocol r.nprocs) (threads_positive protocol r.nprocs),
      )
      refl

-- What io_attach and io_pipefd read at an index inside the array of a block: its epoll instance and
-- its pipe. What they read outside the array may be anything.
pub record IsView (block : IoBlock) (o : IoObject) : Type 0 where
  pub divisions : o.divisions ≡ block.divisions
  pub inside :
      (bs : List EpollBlock) (i : ℕ) (b : EpollBlock)
      → block.epoptr ≡ some bs
      → get_elem? bs i ≡ some b
      → (o.epfd i ≡ b.epfd) × (b.pipefdw ≡ some (o.pipefdw i))

-- The block of a handle that is in use.
abbrev slot_block : IoBlock → Slot → IoBlock
slot_block other unset = other
slot_block other gone = other
slot_block other (used block) = block

-- The block that a link was given: io_attach has put the link into its epoll instance, and
-- io_pipefd gives its pipe.
pub record IsServed (makeerror : ℕ → ℤ) (handles : IoHandles) (ncb : Ncb) (attached : ℤ × Ncb)
    (b : EpollBlock) : Type 0 where
  pub instance : attached.0 ≡ b.epfd
  pub kept : attached.1.epfd ≡ b.epfd
  pub pipe : b.pipefdw ≡ some (io_pipefd makeerror handles ncb)
