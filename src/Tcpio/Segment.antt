-- ===== src/Tcpio/Segment.antt =====
-- The loop of __tcp_rx reads a whole received segment.
use swnet_linux.Base.{
  ℕ, zero, suc, ◌-◌, ◌≤◌, ◌<◌, ◌≡◌, refl, sym, ap, ap₂, ◌∙◌, List, [], ◌∷◌, ◌++◌, map, none, some,
  inl, inr, Bool, length, take, drop, take-append-drop, take-length, length-drop, append_assoc,
  arith,
}
use swnet_linux.Base.Int.{pos, neg}
use swnet_linux.Ncb.{Ncb, Parser, AttrBits, tcp_buffer_size, receivedata}
use swnet_linux.Tcpal.{Outcome, tcp_parse_pkt}
use swnet_linux.Tcpal.Stream.{run, run-append, continue_with, prefix}
use swnet_linux.Tcpal.Refine.{
  Same, deliveries, user_bytes, IsFramed, Holds, NoCutLargeHeader, Reads, refused, advanced,
}
use swnet_linux.Tcpal.Refine.Parse.{Same-trans}
use swnet_linux.Tcpal.Refine.Call.{Suitable, tcp_parse_pkt-Reads}
use swnet_linux.Tcpio.{parse_loop}

module _ (cb : ℕ) (parser : Parser) where
  -- A whole segment is read, or its stream is bad.
  pub data ReadsAll (bits : AttrBits) (ncb : Ncb) (p bytes : List ℕ) (out : Outcome) : Type 0 where
    refused_all :
        (ncb' : Ncb)
        → out ≡ some (neg 1, ncb')
        → run cb parser p bytes ≡ none
        → ReadsAll bits ncb p bytes out
    read_all :
        (ncb' : Ncb) (packets : List (List ℕ)) (p' : List ℕ)
        → out ≡ some (pos 0, ncb')
        → run cb parser p bytes ≡ some (packets, p')
        → Holds cb parser ncb' p'
        → Same ncb ncb'
        → ncb'.posted ≡ ncb.posted ++ deliveries bits ncb.attr cb packets
        → ReadsAll bits ncb p bytes out

  pub IsFramed-Same : {a b : Ncb} → Same a b → IsFramed cb parser a → IsFramed cb parser b
  IsFramed-Same s f = record {
    template_cb = ap (λ t. t.cb) s.template ∙ f.template_cb;
    template_parser = ap (λ t. t.parser) s.template ∙ f.template_parser;
    callback = rw s.callback f.callback;
  }

pub map-append_lem {ℓ κ} :
    {A : Type ℓ} {B : Type κ} (f : A → B) (xs ys : List A) → map f (xs ++ ys) ≡ map f xs ++ map f ys
map-append_lem f [] ys = refl
map-append_lem f (x ∷ xs) ys = ap (◌∷◌ (f x)) (map-append_lem f xs ys)

module _ (bits : AttrBits) (cb : ℕ) (parser : Parser) where
  pub run-bad : (p xs ys : List ℕ) → run cb parser p xs ≡ none → run cb parser p (xs ++ ys) ≡ none
  run-bad p xs ys e = run-append cb parser p xs ys ∙ ap (λ r. continue_with cb parser r ys) e

  pub run-split :
      (p xs ys p1 : List ℕ) (fs : List (List ℕ))
      → run cb parser p xs ≡ some (fs, p1)
      → run cb parser p (xs ++ ys) ≡ prefix fs (run cb parser p1 ys)
  run-split p xs ys p1 fs e =
      run-append cb parser p xs ys ∙ ap (λ r. continue_with cb parser r ys) e

  -- The events of a first reading and then of a second.
  pub posted-then :
      (ncb ncb1 ncb2 : Ncb) (fs gs : List (List ℕ))
      → Same ncb ncb1
      → ncb1.posted ≡ ncb.posted ++ deliveries bits ncb.attr cb fs
      → ncb2.posted ≡ ncb1.posted ++ deliveries bits ncb1.attr cb gs
      → ncb2.posted ≡ ncb.posted ++ deliveries bits ncb.attr cb (fs ++ gs)
  posted-then ncb ncb1 ncb2 fs gs sm e1 e2 =
      e2
      ∙ ap₂ (λ l attr. l ++ deliveries bits attr cb gs) e1 sm.attr
      ∙ append_assoc ncb.posted (deliveries bits ncb.attr cb fs) (deliveries bits ncb.attr cb gs)
      ∙ ap (◌++◌ ncb.posted)
          (sym (map-append_lem (λ k. receivedata (user_bytes bits ncb.attr cb k)) fs gs))

  -- What is read behind a first part is read behind all.
  pub ReadsAll-then :
      (ncb ncb1 : Ncb) (p xs ys p1 : List ℕ) (fs : List (List ℕ)) (out : Outcome)
      → run cb parser p xs ≡ some (fs, p1)
      → Same ncb ncb1
      → ncb1.posted ≡ ncb.posted ++ deliveries bits ncb.attr cb fs
      → ReadsAll cb parser bits ncb1 p1 ys out
      → ReadsAll cb parser bits ncb p (xs ++ ys) out
  ReadsAll-then ncb ncb1 p xs ys p1 fs out r sm po (refused_all ncb' o e) =
      refused_all ncb' o (run-split p xs ys p1 fs r ∙ ap (prefix fs) e)
  ReadsAll-then ncb ncb1 p xs ys p1 fs out r sm po (read_all ncb' gs p' o e h sm' po') =
      read_all ncb' (fs ++ gs) p' o (run-split p xs ys p1 fs r ∙ ap (prefix fs) e) h
        (Same-trans sm sm') (posted-then ncb ncb1 ncb' fs gs sm po po')

module _ (bits : AttrBits) (alloc : ℕ → Bool) (cb : ℕ) (parser : Parser) where
  -- With memory for large blocks, a template of 1 to 32 bytes whose parser reads the header only, on
  -- a link with this template and a callback that holds the pending bytes, on every segment that
  -- recv(2) can deliver (not empty, at most a receive buffer), and that does not cut the header of a
  -- large packet: the loop ends within as many rounds as there are bytes, or more. Either it returns
  -- -1, and the stream is bad, or it returns 0 with all of the segment read, the packets that end in
  -- it delivered in order and the rest held.
  pub parse_loop-ReadsAll :
      (fuel : ℕ) (ncb : Ncb) (p bytes : List ℕ)
      → Suitable alloc cb parser
      → IsFramed cb parser ncb
      → Holds cb parser ncb p
      → NoCutLargeHeader cb parser p bytes
      → 0 < length bytes
      → length bytes ≤ fuel
      → length bytes ≤ tcp_buffer_size
      → ReadsAll cb parser bits ncb p bytes (parse_loop bits alloc fuel ncb bytes)
  unfolding parse_loop
  parse_loop-ReadsAll zero ncb p bytes s f h nc n fu fits = absurd (omega arith)
  parse_loop-ReadsAll (suc fuel) ncb p bytes s f h nc n fu fits =
      step (tcp_parse_pkt bits alloc ncb bytes) refl
        (tcp_parse_pkt-Reads bits alloc cb parser ncb p bytes s f h nc n fits)
        (parse_loop-ReadsAll fuel)
    where
      step :
          (out : Outcome)
          → tcp_parse_pkt bits alloc ncb bytes ≡ out
          → Reads cb parser bits ncb p bytes out
          → ((ncb1 : Ncb) (p1 rest : List ℕ)
              → Suitable alloc cb parser
              → IsFramed cb parser ncb1
              → Holds cb parser ncb1 p1
              → NoCutLargeHeader cb parser p1 rest
              → 0 < length rest
              → length rest ≤ fuel
              → length rest ≤ tcp_buffer_size
              → ReadsAll cb parser bits ncb1 p1 rest (parse_loop bits alloc fuel ncb1 rest))
          → ReadsAll cb parser bits ncb p bytes (parse_loop bits alloc (suc fuel) ncb bytes)
      step out e (refused ncb' o r) ih = refused_all ncb' (rw (e ∙ o, parse_loop) refl) r
      step out e (advanced zero ncb' packets p' o k r h' sm po en) ih =
          read_all ncb' packets p' (rw (e ∙ o, parse_loop) refl)
            (rw (take-length (length bytes - 0) bytes (omega arith)) at r) h' sm po
      step out e (advanced (suc k) ncb' packets p' o kl r h' sm po (inl z)) ih =
          absurd (omega arith)
      step out e (advanced (suc k) ncb' packets p' o kl r h' sm po (inr z)) ih =
          let m = length bytes - suc k in
          let rest : List ℕ = drop m bytes in
          let left : length rest ≡ suc k = omega (arith, length-drop m bytes) in
          rw (loop (e ∙ o)) (
            rw (take-append-drop m bytes) at (
              ReadsAll-then bits cb parser ncb ncb' p (take m bytes) rest p' packets
                (parse_loop bits alloc fuel ncb' rest) r sm po
                (ih ncb' p' rest s (IsFramed-Same cb parser sm f) h'
                  (λ t n0. absurd (omega (arith, ap length z))) (omega arith) (omega arith)
                  (omega arith))))
        where
          loop :
              tcp_parse_pkt bits alloc ncb bytes ≡ some (pos (suc k), ncb')
              → parse_loop bits alloc (suc fuel) ncb bytes
                ≡ parse_loop bits alloc fuel ncb' (drop (length bytes - suc k) bytes)
          loop q = rw (q, parse_loop) refl
