-- ===== src/Arp/Create.antt =====
-- arp.c: arp_create and arp_destroy, and arp_bindsource, which binds a link to the interface of an
-- address.
use swnet_linux.Base.{ℕ, List, [], ◌∷◌, Option, none, some, Bool, ◌==◌, if◌then◌else◌, enoent}
use swnet_linux.Base.Int.{ℤ, pos, neg, is_neg}
use swnet_linux.Base.Run.{Run, fault, done, ◌>>=◌}
use swnet_linux.Buffer.{malloc}
use swnet_linux.Ncb.{Ncb, Routine, eth_p_arp}
use swnet_linux.Ncb.Life.{ncb_allocator, ncb_deconstruct}
use swnet_linux.Io.{epollin, io_close}
use swnet_linux.Io.Attach.{IoHandles, AttachReplies, io_attach}
use swnet_linux.Arp.{nis_p_arp_size}

-- An entry of the list that getifaddrs(3) gives: the four bytes where an IPv4 address would stand,
-- none where it has no address; the index of the interface, and its hardware address, none where
-- it cannot be had.
pub record Interface : Type 0 where
  pub addr : Option ℕ
  pub ifindex : ℕ
  pub phyaddr : Option (List ℕ)

-- The entry with the address. The code reads the address of every entry before it, and it is
-- undefined to do so where there is none.
unfoldable pub find_source : ℕ → List Interface → Run (Option Interface)
find_source src_ip [] = done none
find_source src_ip (ifa ∷ ifs) =
    let rest = find_source src_ip ifs in
    elim ifa.addr [ none ↦ fault | some a ↦ if a == src_ip then done (some ifa) else rest ]

-- nis_getifmac: the address is stored where it can be had. No caller looks at the return code.
unfoldable pub nis_getifmac : Option (List ℕ) → List ℕ → List ℕ
nis_getifmac none pyhaddr = pyhaddr
nis_getifmac (some mac) pyhaddr = mac

unfoldable pub bind_to : ℕ → Ncb → Option Interface → ℤ × Ncb
unfolding nis_getifmac
bind_to src_ip ncb none = (neg enoent, ncb)
bind_to src_ip ncb (some ifsrc) = (
  pos 0,
  record ncb {
    arp = record {
      source = src_ip;
      ifindex = ifsrc.ifindex;
      source_phyaddr = nis_getifmac ifsrc.phyaddr ncb.arp.source_phyaddr;
    };
  },
)

-- What getifaddrs(3) answers: an errno, or the list.
pub data Interfaces : Type 0 where
  unknown : ℕ → Interfaces
  known : List Interface → Interfaces

unfoldable pub arp_bindsource : (ℕ → ℤ) → Interfaces → ℕ → Ncb → Run (ℤ × Ncb)
unfolding bind_to
arp_bindsource makeerror (unknown e) src_ip ncb = done (makeerror e, ncb)
arp_bindsource makeerror (known ifs) src_ip ncb =
    find_source src_ip ifs >>= (λ found. done (bind_to src_ip ncb found))

-- arp_destroy: the socket of the link is closed, where there is a link. `ctl` is the answer to the
-- epoll_ctl(2) of io_close.
unfoldable pub arp_destroy : Option Ncb → Option ℕ → Option Ncb
arp_destroy none ctl = none
arp_destroy (some ncb) ctl = some (io_close ncb ctl)

-- The answers of the system, each to a call that is made only where the code reaches it.
pub record ArpReplies : Type 0 where
  pub fd : Option ℕ
  pub hld : Option ℕ
  pub interfaces : Interfaces
  pub memory : Bool
  pub attach : AttachReplies
  pub ctl : Option ℕ

module _ (makeerror : ℕ → ℤ) (handles : IoHandles) (r : ArpReplies) where
  -- The link is given up: it ends as its last reference goes.
  unfoldable pub give_up : Ncb → ℕ → ℤ × Option Ncb × ℕ
  give_up ncb count =
      let (ncb', count') = ncb_deconstruct ncb count r.ctl in (neg 1, some ncb', count')

  -- From the allocation of the packet on.
  unfoldable pub arp_start : ℕ → Ncb → ℤ × Option Ncb × ℕ
  unfolding give_up
  arp_start count ncb =
      let (retval, ncb') =
        io_attach makeerror handles
          (record ncb {
            packet = some (malloc nis_p_arp_size);
            ncb_read = some Routine.arp_rx;
            ncb_write = some Routine.arp_tx;
          })
          epollin r.attach in
      if r.memory
      then if is_neg retval then give_up ncb' count else (pos ncb.hld, some ncb', count)
      else give_up ncb count

  unfoldable pub arp_made : Option ℕ → ℕ → ℕ → ℕ → Option ℕ → Run (ℤ × Option Ncb × ℕ)
  unfolding arp_start
  arp_made callback source nl_count fd none = done (neg 1, none, nl_count)
  arp_made callback source nl_count fd (some hld) =
      arp_bindsource makeerror r.interfaces source (record (ncb_allocator nl_count).1 {
        nis_callback = callback;
        sockfd = pos fd;
        hld = hld;
        protocol = eth_p_arp;
      })
      >>= (λ bound. done (
          if is_neg bound.0
          then give_up bound.1 (ncb_allocator nl_count).2
          else arp_start (ncb_allocator nl_count).2 bound.1))

  unfoldable pub arp_opened : Option ℕ → ℕ → ℕ → Option ℕ → Run (ℤ × Option Ncb × ℕ)
  unfolding arp_made
  arp_opened callback source nl_count none = done (neg 1, none, nl_count)
  arp_opened callback source nl_count (some fd) = arp_made callback source nl_count fd r.hld

  -- arp_create. `source` is the address that inet_addr(3) reads from the caller's string.
  unfoldable pub arp_create : Option ℕ → ℕ → ℕ → Run (ℤ × Option Ncb × ℕ)
  unfolding arp_opened
  arp_create callback source nl_count = arp_opened callback source nl_count r.fd
