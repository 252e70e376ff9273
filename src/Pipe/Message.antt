-- ===== src/Pipe/Message.antt =====
-- A message through the pipe.
use swnet_linux.Base.{
  length-take, ℕ, ◌+◌, ◌%◌, ◌^◌, ◌<◌, ◌≡◌, refl, sym, ap, ◌∙◌, List, [], ◌∷◌, ◌++◌, some, Bool,
  ge→ltb, lt→ltb, length, length-append, take, drop, take-append_self, drop-append_self, drop-add,
  take-length, le_bytes, of_le, of_le-le_bytes, length-le_bytes, byte_limit, eagain, arith, ==_iff,
}
use swnet_linux.Base.Int.{ℤ, pos, negsuc, to_ℕ}
use swnet_linux.Io.Attach.{IoHandles}
use swnet_linux.Base.Run.{done}
use swnet_linux.Ncb.{Ncb, pipedata, post_called, ncb_post_pipedata}
use swnet_linux.Objects.{Objects, on_object, AreOthers, on_object_at}
use swnet_linux.Pipe.{
  pipe_write_message, is_too_large, pipe_message, packet_size, pipe_deliver, pipe_rx, message,
  nothing,
}

module _ (hld : ℕ) (stale bytes : List ℕ) (padded : length stale ≡ 4) where
  length-message : length (pipe_message hld stale bytes) ≡ 16 + length bytes
  unfolding pipe_message
  length-message = omega (
    arith,
    padded,
    length-append (le_bytes 4 (length bytes)) (stale ++ (le_bytes 8 hld ++ bytes)),
    length-append stale (le_bytes 8 hld ++ bytes),
    length-append (le_bytes 8 hld) bytes,
    length-le_bytes 4 (length bytes),
    length-le_bytes 8 hld,
  )

  message_length :
      length bytes < 4096 → of_le (take 4 (pipe_message hld stale bytes)) ≡ length bytes
  unfolding pipe_message
  message_length h =
      ap of_le (
        take-append_self (le_bytes 4 (length bytes)) (stale ++ (le_bytes 8 hld ++ bytes)) 4
          (sym (length-le_bytes 4 (length bytes))))
      ∙ of_le-le_bytes 4 (length bytes) (omega arith)

  -- Behind the length and its padding.
  behind_length : drop 8 (pipe_message hld stale bytes) ≡ le_bytes 8 hld ++ bytes
  unfolding pipe_message
  behind_length =
      sym (drop-add 4 4 8 (le_bytes 4 (length bytes) ++ (stale ++ (le_bytes 8 hld ++ bytes))) refl)
      ∙ ap (drop 4) (
          drop-append_self (le_bytes 4 (length bytes)) (stale ++ (le_bytes 8 hld ++ bytes)) 4
            (sym (length-le_bytes 4 (length bytes))))
      ∙ drop-append_self stale (le_bytes 8 hld ++ bytes) 4 (sym padded)

  message_link : hld < byte_limit 8 → of_le (take 8 (drop 8 (pipe_message hld stale bytes))) ≡ hld
  message_link h =
      ap (λ l. of_le (take 8 l)) behind_length
      ∙ ap of_le (take-append_self (le_bytes 8 hld) bytes 8 (sym (length-le_bytes 8 hld)))
      ∙ of_le-le_bytes 8 hld h

  message_data : drop 16 (pipe_message hld stale bytes) ≡ bytes
  message_data =
      sym (drop-add 8 8 16 (pipe_message hld stale bytes) refl)
      ∙ ap (drop 8) behind_length
      ∙ drop-append_self (le_bytes 8 hld) bytes 8 (sym (length-le_bytes 8 hld))

  pub deliver-message :
      (objects : Objects)
      → length bytes < 4080
      → hld < byte_limit 8
      → pipe_deliver objects (pipe_message hld stale bytes)
        ≡ on_object (λ ncb. ncb_post_pipedata ncb bytes) hld objects
  unfolding pipe_deliver packet_size
  deliver-message objects small h =
      rw
        (
          length-message,
          message_length (omega arith),
          message_link h,
          message_data,
          take-length (length bytes) bytes (omega arith),
          ge→ltb (16 + length bytes) 16 (omega arith),
          lt→ltb (length bytes) (2 ^ 31) (omega arith),
          (==_iff (16 + length bytes) ((length bytes + 16) % 2 ^ 64)).1 (omega arith),
        )
        refl

-- The end of the messages.
drained : (objects : Objects) → pipe_rx objects (nothing eagain ∷ []) ≡ done (pos 0, objects, [])
unfolding pipe_rx
drained objects = refl

delivered :
    (objects : Objects) (hld : ℕ) (stale bytes : List ℕ)
    → pipe_rx objects (message (pipe_message hld stale bytes) ∷ nothing eagain ∷ [])
      ≡ done (pos 0, pipe_deliver objects (pipe_message hld stale bytes), [])
unfolding pipe_rx pipe_message
delivered objects hld stale bytes = refl

post_pipedata_called :
    (ncb : Ncb) (bytes : List ℕ) (callback : ℕ)
    → ncb.nis_callback ≡ some callback
    → ncb_post_pipedata ncb bytes ≡ record ncb { posted = ncb.posted ++ (pipedata bytes ∷ []) }
unfolding ncb_post_pipedata
post_pipedata_called ncb bytes callback c = post_called ncb (pipedata bytes) callback c

-- What was written is the message, of fewer than 4080 bytes.
abbrev IsMessage : Ncb → List ℕ → List ℕ → ℤ → List ℕ → Type 0
IsMessage ncb stale bytes cb packet =
    (packet ≡ pipe_message ncb.hld stale (take (to_ℕ cb) bytes))
    × (length (take (to_ℕ cb) bytes) < 4080)

write-IsMessage :
    (makeerror : ℕ → ℤ) (handles : IoHandles) (alloc : ℕ → Bool) (stale : List ℕ) (written : ℤ)
    (ncb : Ncb) (bytes : List ℕ) (cb r : ℤ) (packet : List ℕ)
    → pipe_write_message makeerror handles alloc stale written ncb bytes cb ≡ done (r, some packet)
    → IsMessage ncb stale bytes cb packet
unfolding pipe_write_message is_too_large
write-IsMessage makeerror handles alloc stale written ncb bytes (pos n) r packet e =
    let measured = length-take n bytes in ground arith
write-IsMessage makeerror handles alloc stale written ncb bytes (negsuc n) r packet e = cc

-- A message that pipe_write_message handed to write(2) for a live link with a callback, and that
-- pipe_rx then reads from the pipe, arrives: pipe_rx hands exactly the bytes given to
-- pipe_write_message to that link, behind the events it was told before, and no other link changes.
-- `stale` is the padding of the head, which malloc leaves as it is.
pub message_roundtrip :
    (makeerror : ℕ → ℤ) (handles : IoHandles) (alloc : ℕ → Bool) (stale : List ℕ) (written : ℤ)
    (before after : Objects) (ncb : Ncb) (callback : ℕ) (bytes : List ℕ) (cb r : ℤ)
    (packet : List ℕ)
    → AreOthers ncb.hld before
    → ncb.nis_callback ≡ some callback
    → ncb.hld < byte_limit 8
    → length stale ≡ 4
    → pipe_write_message makeerror handles alloc stale written ncb bytes cb ≡ done (r, some packet)
    → pipe_rx (before ++ (ncb ∷ after)) (message packet ∷ nothing eagain ∷ [])
      ≡ done (
        pos 0,
        before
            ++ (record ncb { posted = ncb.posted ++ (pipedata (take (to_ℕ cb) bytes) ∷ []) }
                ∷ after),
        [],
      )
message_roundtrip makeerror handles alloc stale written before after ncb callback bytes cb r packet
      others c h padded e =
    let (is, small) =
      write-IsMessage makeerror handles alloc stale written ncb bytes cb r packet e in
    let data' = take (to_ℕ cb) bytes in
    let objects = before ++ (ncb ∷ after) in
    ap (λ p. pipe_rx objects (message p ∷ nothing eagain ∷ [])) is
    ∙ delivered objects ncb.hld stale data'
    ∙ ap (λ o. done (pos 0, o, []))
        (deliver-message ncb.hld stale data' padded objects small h
          ∙ on_object_at (λ n. ncb_post_pipedata n data') before after ncb others
          ∙ ap (λ n. before ++ (n ∷ after)) (post_pipedata_called ncb data' callback c))
