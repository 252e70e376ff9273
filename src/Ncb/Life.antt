-- ===== src/Ncb/Life.antt =====
-- ncb.c: the start and the end of a link. The lists of all links are the program's globals
-- `nl_head` and `nl_count`.
use swnet_linux.Base.{
  replicate, ℕ, ◌+◌, ◌-◌, ◌≡◌, refl, ap, ◌∙◌, [], ◌∷◌, ◌++◌, Option, none, some, false, ◌==◌, ◌&&◌,
  if◌then◌else◌, is_some, arith,
}
use swnet_linux.Base.Int.{ℤ, pos}
use swnet_linux.Ncb.{
  Ncb, SockAddr, Template, Event, pre_close, closed, post, ncb_post_preclose, ncb_post_closed,
  ipproto_tcp,
}
use swnet_linux.Io.{io_close, io_detach, detach_open}
use swnet_linux.Fifo.{fifo_init, fifo_uninit}

-- All fields zero, as memset(3) leaves them; `flags` and `interest` are those of no socket yet.
abbrev pub zeroed : Ncb
zeroed =
    let nowhere : SockAddr = record { addr = 0; port = 0 } in
    let empty : Template = record { cb = 0; builder = none; parser = none } in
    record {
      hld = 0;
      sockfd = pos 0;
      epfd = pos 0;
      protocol = 0;
      packet = none;
      fifo = record { blocking = 0; size = 0; nodes = [] };
      remot_addr = nowhere;
      local_addr = nowhere;
      nis_callback = none;
      ncb_read = none;
      ncb_write = none;
      attr = 0;
      context = none;
      prcontext = none;
      tcp = record {
        rx_parse_offset = 0;
        rx_buffer = none;
        lbdata = none;
        lboffset = 0;
        lbsize = 0;
        template = empty;
        prtemplate = empty;
      };
      mreq = none;
      arp = record { source = 0; ifindex = 0; source_phyaddr = replicate 6 0 };
      flags = record { nonblock = false; cloexec = false };
      interest = none;
      posted = [];
    }

-- `nl_count`, and the handle of the new link's entry is added where the object is made.
unfoldable pub ncb_allocator : ℕ → ℤ × Ncb × ℕ
ncb_allocator nl_count = (pos 0, fifo_init zeroed, nl_count + 1)

-- The TCP part of ncb_deconstruct: the receive buffer and the large block are freed.
unfoldable pub free_tcp : Ncb → Ncb
free_tcp ncb =
    if is_some ncb.tcp.rx_buffer && (ncb.protocol == ipproto_tcp)
    then record ncb {
      tcp = record ncb.tcp { rx_buffer = none; lbdata = none; lbsize = 0; lboffset = 0 };
    }
    else ncb

-- The part of ncb_deconstruct between its two events: the link is taken out of epoll and closed,
-- and its memory is freed. `ctl` is the answer to the epoll_ctl(2) of io_close.
unfoldable pub released : Ncb → Option ℕ → Ncb
released ncb ctl = fifo_uninit (free_tcp (record (io_close ncb ctl) { packet = none }))

-- ncb_deconstruct, with the count of links.
unfoldable pub ncb_deconstruct : Ncb → ℕ → Option ℕ → Ncb × ℕ
ncb_deconstruct ncb nl_count ctl = (
  record (ncb_post_closed (released (record (ncb_post_preclose ncb) { context = none }) ctl)) {
    nis_callback = none;
  },
  nl_count - 1,
)

close-keeps :
    (ncb : Ncb) (ctl : Option ℕ)
    → ((io_close ncb ctl).posted ≡ ncb.posted)
      × ((io_close ncb ctl).nis_callback ≡ ncb.nis_callback)
      × ((io_close ncb ctl).context ≡ ncb.context)
unfolding io_close detach_open io_detach
close-keeps ncb none = ground arith
close-keeps ncb (some e) = ground arith

free_tcp-keeps :
    (ncb : Ncb)
    → ((free_tcp ncb).posted ≡ ncb.posted)
      × ((free_tcp ncb).nis_callback ≡ ncb.nis_callback)
      × ((free_tcp ncb).context ≡ ncb.context)
      × ((free_tcp ncb).packet ≡ ncb.packet)
unfolding free_tcp
free_tcp-keeps ncb = ground arith

post-posted :
    (ncb : Ncb) (e : Event) (c : ℕ)
    → ncb.nis_callback ≡ some c
    → (post ncb e).posted ≡ ncb.posted ++ (e ∷ [])
unfolding post
post-posted ncb e c h = ground arith

post-keeps :
    (ncb : Ncb) (e : Event)
    → ((post ncb e).nis_callback ≡ ncb.nis_callback)
      × ((post ncb e).context ≡ ncb.context)
      × ((post ncb e).packet ≡ ncb.packet)
      × ((post ncb e).fifo ≡ ncb.fifo)
unfolding post
post-keeps ncb e = ground arith

released-keeps :
    (ncb : Ncb) (ctl : Option ℕ)
    → ((released ncb ctl).posted ≡ ncb.posted)
      × ((released ncb ctl).nis_callback ≡ ncb.nis_callback)
      × ((released ncb ctl).context ≡ ncb.context)
      × ((released ncb ctl).packet ≡ none)
      × ((released ncb ctl).fifo.nodes ≡ [])
unfolding released fifo_uninit
released-keeps ncb ctl =
    let c = close-keeps ncb ctl in
    let f = free_tcp-keeps (record (io_close ncb ctl) { packet = none }) in
    (f.0 ∙ c.0, f.1 ∙ c.1, f.2 ∙ c.2, f.3, refl)

-- At the end of a link that has a callback, the user is told twice, first with the context that was
-- set and last of all that the link is closed; no packet buffer, node, context or callback
-- of it is left.
pub ncb_deconstruct_ends :
    (ncb : Ncb) (callback nl_count : ℕ) (ctl : Option ℕ)
    → ncb.nis_callback ≡ some callback
    → ((ncb_deconstruct ncb nl_count ctl).0.posted
        ≡ (ncb.posted ++ (pre_close ncb.context ∷ [])) ++ (closed ∷ []))
      × ((ncb_deconstruct ncb nl_count ctl).0.nis_callback ≡ none)
      × ((ncb_deconstruct ncb nl_count ctl).0.context ≡ none)
      × ((ncb_deconstruct ncb nl_count ctl).0.packet ≡ none)
      × ((ncb_deconstruct ncb nl_count ctl).0.fifo.nodes ≡ [])
unfolding ncb_deconstruct ncb_post_preclose ncb_post_closed
ncb_deconstruct_ends ncb callback nl_count ctl e =
    let told : Ncb = record (post ncb (pre_close ncb.context)) { context = none } in
    let r = released-keeps told ctl in
    let k = post-keeps (released told ctl) closed in
    (
      post-posted (released told ctl) closed callback
            (r.1 ∙ (post-keeps ncb (pre_close ncb.context)).0 ∙ e)
          ∙ ap (λ l. l ++ (closed ∷ [])) (r.0 ∙ post-posted ncb (pre_close ncb.context) callback e),
      refl,
      k.1 ∙ r.2,
      k.2 ∙ r.3,
      ap (λ f. f.nodes) k.3 ∙ r.4,
    )
