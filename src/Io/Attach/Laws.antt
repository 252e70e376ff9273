-- ===== src/Io/Attach/Laws.antt =====
-- What attaching leaves and what it sets.
use swnet_linux.Base.{ℕ, ◌≡◌, refl, Option, none, some, true, false, arith}
use swnet_linux.Base.Int.{ℤ, is_neg}
use swnet_linux.Ncb.{Ncb}
use swnet_linux.Io.{registered}
use swnet_linux.Io.Attach.{
  IoHandles, Handle, unset, stale, live, FcntlReplies, AttachReplies, io_handle, fcntl_cloexec,
  fcntl_setfl, fcntl_nonblock, io_fcntl, attach_to, attach_in, io_attach,
}

-- Attaching leaves the callback of a link, what it was told, its context and its routines.
abbrev pub AreQuiet : Ncb → Ncb → Type 0
AreQuiet ncb' ncb =
    (ncb'.nis_callback ≡ ncb.nis_callback)
    × (ncb'.posted ≡ ncb.posted)
    × (ncb'.context ≡ ncb.context)
    × (ncb'.ncb_read ≡ ncb.ncb_read)
    × (ncb'.ncb_write ≡ ncb.ncb_write)

module _ (makeerror : ℕ → ℤ) where
  cloexec-AreQuiet :
      (ncb : Ncb) (getfd setfd : Option ℕ)
      → AreQuiet (fcntl_cloexec makeerror ncb getfd setfd).1 ncb
  unfolding fcntl_cloexec
  cloexec-AreQuiet ncb (some e) setfd = (refl, refl, refl, refl, refl)
  cloexec-AreQuiet ncb none none = (refl, refl, refl, refl, refl)
  cloexec-AreQuiet ncb none (some e) = ground arith

  setfl-AreQuiet :
      (ncb : Ncb) (setfl getfd setfd : Option ℕ)
      → AreQuiet (fcntl_setfl makeerror ncb setfl getfd setfd).1 ncb
  unfolding fcntl_setfl
  setfl-AreQuiet ncb (some e) getfd setfd = (refl, refl, refl, refl, refl)
  setfl-AreQuiet ncb none getfd setfd =
      cloexec-AreQuiet (record ncb { flags = record ncb.flags { nonblock = true } }) getfd setfd

  nonblock-AreQuiet :
      (ncb : Ncb) (getfl setfl getfd setfd : Option ℕ)
      → AreQuiet (fcntl_nonblock makeerror ncb getfl setfl getfd setfd).1 ncb
  unfolding fcntl_nonblock
  nonblock-AreQuiet ncb (some e) setfl getfd setfd = (refl, refl, refl, refl, refl)
  nonblock-AreQuiet ncb none setfl getfd setfd =
      grind (arith, cloexec-AreQuiet ncb getfd setfd, setfl-AreQuiet ncb setfl getfd setfd)

  fcntl-AreQuiet : (ncb : Ncb) (r : FcntlReplies) → AreQuiet (io_fcntl makeerror ncb r).1 ncb
  unfolding io_fcntl
  fcntl-AreQuiet ncb r = grind (arith, nonblock-AreQuiet ncb r.getfl r.setfl r.getfd r.setfd)

  -- The handle and the protocol of a link stay.
  abbrev IsSameLink : Ncb → Ncb → Type 0
  IsSameLink ncb' ncb = (ncb'.hld ≡ ncb.hld) × (ncb'.protocol ≡ ncb.protocol)

  cloexec-IsSameLink :
      (ncb : Ncb) (getfd setfd : Option ℕ)
      → IsSameLink (fcntl_cloexec makeerror ncb getfd setfd).1 ncb
  unfolding fcntl_cloexec
  cloexec-IsSameLink ncb (some e) setfd = (refl, refl)
  cloexec-IsSameLink ncb none none = (refl, refl)
  cloexec-IsSameLink ncb none (some e) = ground arith

  setfl-IsSameLink :
      (ncb : Ncb) (setfl getfd setfd : Option ℕ)
      → IsSameLink (fcntl_setfl makeerror ncb setfl getfd setfd).1 ncb
  unfolding fcntl_setfl
  setfl-IsSameLink ncb (some e) getfd setfd = (refl, refl)
  setfl-IsSameLink ncb none getfd setfd =
      cloexec-IsSameLink (record ncb { flags = record ncb.flags { nonblock = true } }) getfd setfd

  nonblock-IsSameLink :
      (ncb : Ncb) (getfl setfl getfd setfd : Option ℕ)
      → IsSameLink (fcntl_nonblock makeerror ncb getfl setfl getfd setfd).1 ncb
  unfolding fcntl_nonblock
  nonblock-IsSameLink ncb (some e) setfl getfd setfd = (refl, refl)
  nonblock-IsSameLink ncb none setfl getfd setfd =
      grind (arith, cloexec-IsSameLink ncb getfd setfd, setfl-IsSameLink ncb setfl getfd setfd)

  pub fcntl-IsSameLink :
      (ncb : Ncb) (r : FcntlReplies) → IsSameLink (io_fcntl makeerror ncb r).1 ncb
  unfolding io_fcntl
  fcntl-IsSameLink ncb r = grind (arith, nonblock-IsSameLink ncb r.getfl r.setfl r.getfd r.setfd)

  attach_in-AreQuiet :
      (handle : Handle) (ncb : Ncb) (mask : ℕ) (add : Option ℕ)
      → AreQuiet (attach_in makeerror handle ncb mask add).1 ncb
  unfolding attach_in attach_to
  attach_in-AreQuiet unset ncb mask add = (refl, refl, refl, refl, refl)
  attach_in-AreQuiet stale ncb mask add = (refl, refl, refl, refl, refl)
  attach_in-AreQuiet (live o) ncb mask none = (refl, refl, refl, refl, refl)
  attach_in-AreQuiet (live o) ncb mask (some e) = ground arith

  pub io_attach-AreQuiet :
      (handles : IoHandles) (ncb : Ncb) (mask : ℕ) (r : AttachReplies)
      → AreQuiet (io_attach makeerror handles ncb mask r).1 ncb
  unfolding io_attach
  io_attach-AreQuiet handles ncb mask r =
      let ncb' = (io_fcntl makeerror ncb r.fcntl).1 in
      grind (
        arith,
        fcntl-AreQuiet ncb r.fcntl,
        attach_in-AreQuiet (io_handle handles ncb'.protocol) ncb' mask r.add,
      )

module _ (makeerror : ℕ → ℤ) (negative : (e : ℕ) → is_neg (makeerror e) ≡ true) where
  cloexec_sets :
      (ncb : Ncb) (getfd setfd : Option ℕ)
      → is_neg (fcntl_cloexec makeerror ncb getfd setfd).0 ≡ false
      → ((fcntl_cloexec makeerror ncb getfd setfd).1.flags.cloexec ≡ true)
        × ((fcntl_cloexec makeerror ncb getfd setfd).1.flags.nonblock ≡ ncb.flags.nonblock)
  unfolding fcntl_cloexec
  cloexec_sets ncb (some e) setfd h = grind (arith, negative e)
  cloexec_sets ncb none none h = (refl, refl)
  cloexec_sets ncb none (some e) h = ground (arith, negative e)

  setfl_sets :
      (ncb : Ncb) (setfl getfd setfd : Option ℕ)
      → is_neg (fcntl_setfl makeerror ncb setfl getfd setfd).0 ≡ false
      → ((fcntl_setfl makeerror ncb setfl getfd setfd).1.flags.cloexec ≡ true)
        × ((fcntl_setfl makeerror ncb setfl getfd setfd).1.flags.nonblock ≡ true)
  unfolding fcntl_setfl
  setfl_sets ncb (some e) getfd setfd h = grind (arith, negative e)
  setfl_sets ncb none getfd setfd h =
      cloexec_sets (record ncb { flags = record ncb.flags { nonblock = true } }) getfd setfd h

  nonblock_sets :
      (ncb : Ncb) (getfl setfl getfd setfd : Option ℕ)
      → is_neg (fcntl_nonblock makeerror ncb getfl setfl getfd setfd).0 ≡ false
      → ((fcntl_nonblock makeerror ncb getfl setfl getfd setfd).1.flags.cloexec ≡ true)
        × ((fcntl_nonblock makeerror ncb getfl setfl getfd setfd).1.flags.nonblock ≡ true)
  unfolding fcntl_nonblock
  nonblock_sets ncb (some e) setfl getfd setfd h = grind (arith, negative e)
  nonblock_sets ncb none setfl getfd setfd h =
      grind (arith, cloexec_sets ncb getfd setfd, setfl_sets ncb setfl getfd setfd)

  -- Where io_fcntl succeeds, the descriptor neither blocks nor is inherited, whichever of the flags
  -- were set before.
  pub io_fcntl_sets :
      (ncb : Ncb) (r : FcntlReplies)
      → is_neg (io_fcntl makeerror ncb r).0 ≡ false
      → ((io_fcntl makeerror ncb r).1.flags.cloexec ≡ true)
        × ((io_fcntl makeerror ncb r).1.flags.nonblock ≡ true)
  unfolding io_fcntl
  io_fcntl_sets ncb r h = grind (arith, nonblock_sets ncb r.getfl r.setfl r.getfd r.setfd)

  attach_in_watched :
      (handle : Handle) (ncb : Ncb) (mask : ℕ)
      → is_neg (attach_in makeerror handle ncb mask none).0 ≡ false
      → ((attach_in makeerror handle ncb mask none).1.interest ≡ some (registered mask))
        × ((attach_in makeerror handle ncb mask none).1.epfd
            ≡ (attach_in makeerror handle ncb mask none).0)
        × ((attach_in makeerror handle ncb mask none).1.flags ≡ ncb.flags)
  unfolding attach_in attach_to
  attach_in_watched unset ncb mask h = cc
  attach_in_watched stale ncb mask h = cc
  attach_in_watched (live o) ncb mask h = (refl, refl, refl)

  -- Where io_attach succeeds and the socket was not registered before, it returns the epoll
  -- instance that the link keeps, the mask is registered, and the descriptor does not block.
  pub io_attach_watched :
      (handles : IoHandles) (ncb : Ncb) (mask : ℕ) (fcntl : FcntlReplies)
      → is_neg (io_attach makeerror handles ncb mask (record { fcntl = fcntl; add = none })).0
        ≡ false
      → ((io_attach makeerror handles ncb mask (record { fcntl = fcntl; add = none })).1.interest
          ≡ some (registered mask))
        × ((io_attach makeerror handles ncb mask (record { fcntl = fcntl; add = none })).1.epfd
            ≡ (io_attach makeerror handles ncb mask (record { fcntl = fcntl; add = none })).0)
        × ((io_attach makeerror handles ncb mask
              (record { fcntl = fcntl; add = none })).1.flags.nonblock
            ≡ true)
  unfolding io_attach
  io_attach_watched handles ncb mask fcntl h =
      let ncb' = (io_fcntl makeerror ncb fcntl).1 in
      grind (
        arith,
        io_fcntl_sets ncb fcntl,
        attach_in_watched (io_handle handles ncb'.protocol) ncb' mask,
      )
