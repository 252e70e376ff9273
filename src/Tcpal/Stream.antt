-- ===== src/Tcpal/Stream.antt =====
-- What a framed byte stream means, one byte at a time and without buffers: the independent
-- description that the chunked parser of tcpal.c is held against.
pub mod Reads
use swnet_linux.Base.{
  ℕ, ◌+◌, ◌≤◌, ◌<◌, ◌≡◌, refl, sym, ap, ◌∙◌, List, [], ◌∷◌, ◌++◌, Option, none, some, ltb, ◌||◌,
  if◌then◌else◌, length, take, length-append, take-append_le, append_assoc, append-nil, lt→ltb,
  ge→ltb, arith,
}
use swnet_linux.Base.Int.{is_neg, is_nonpos, to_ℕ}
use swnet_linux.Ncb.{Parser, tcp_maximum_packet_size}

-- What the bytes of the packet under way are after one more byte.
pub data Verdict : Type 0 where
  more complete bad : Verdict

abbrev pub Reading : Type 0
Reading = Option (List (List ℕ) × List ℕ)

abbrev pub prefix : List (List ℕ) → Reading → Reading
prefix fs none = none
prefix fs (some (gs, q)) = some (fs ++ gs, q)

module _ (cb : ℕ) (parser : Parser) where
  -- The size of the whole packet that a header announces, if it is acceptable.
  abbrev pub frame_total : List ℕ → Option ℕ
  frame_total head =
      let (status, size) = parser head in
      if is_neg status
      then none
      else if is_nonpos size || ltb tcp_maximum_packet_size (to_ℕ size)
      then none
      else some (to_ℕ size + cb)

  abbrev judge_total : List ℕ → Option ℕ → Verdict
  judge_total q none = bad
  judge_total q (some t) = if ltb (length q) t then more else complete

  unfoldable pub judge : List ℕ → Verdict
  judge q = if ltb (length q) cb then more else judge_total q (frame_total (take cb q))

  -- Reads bytes behind the pending ones: the packets completed, and what is pending at the end.
  unfoldable pub run : List ℕ → List ℕ → Reading
  run p [] = some ([], p)
  run p (x ∷ xs) = elim (judge (p ++ (x ∷ []))) [
    | more ↦ run (p ++ (x ∷ [])) xs
    | complete ↦ prefix ((p ++ (x ∷ [])) ∷ []) (run [] xs)
    | bad ↦ none
  ]

  prefix-prefix :
      (fs gs : List (List ℕ)) (r : Reading) → prefix fs (prefix gs r) ≡ prefix (fs ++ gs) r
  prefix-prefix fs gs none = refl
  prefix-prefix fs gs (some (hs, q)) = ap (λ k. some (k, q)) (sym (append_assoc fs gs hs))

  -- Reads on behind a first part.
  abbrev pub continue_with : Reading → List ℕ → Reading
  continue_with none ys = none
  continue_with (some (fs, q)) ys = prefix fs (run q ys)

  prefix-continue :
      (fs : List (List ℕ)) (r : Reading) (ys : List ℕ)
      → prefix fs (continue_with r ys) ≡ continue_with (prefix fs r) ys
  prefix-continue fs none ys = refl
  prefix-continue fs (some (gs, q)) ys = prefix-prefix fs gs (run q ys)

  prefix-nil : (r : Reading) → r ≡ prefix [] r
  prefix-nil none = refl
  prefix-nil (some (fs, q)) = refl

  -- Reading a stream in two parts is reading it whole.
  pub run-append : (p xs ys : List ℕ) → run p (xs ++ ys) ≡ continue_with (run p xs) ys
  unfolding run
  run-append p [] ys = prefix-nil (run p ys)
  run-append p (x ∷ xs) ys =
      go (judge (p ++ (x ∷ []))) refl (run-append (p ++ (x ∷ [])) xs ys) (run-append [] xs ys)
    where
      go :
          (v : Verdict)
          → judge (p ++ (x ∷ [])) ≡ v
          → run (p ++ (x ∷ [])) (xs ++ ys) ≡ continue_with (run (p ++ (x ∷ [])) xs) ys
          → run [] (xs ++ ys) ≡ continue_with (run [] xs) ys
          → run p (x ∷ (xs ++ ys)) ≡ continue_with (run p (x ∷ xs)) ys
      go more e ih ih0 = rw (e, run) ih
      go complete e ih ih0 =
          rw (e, run)
            (ap (prefix ((p ++ (x ∷ [])) ∷ [])) ih0
              ∙ prefix-continue ((p ++ (x ∷ [])) ∷ []) (run [] xs) ys)
      go bad e ih ih0 = rw (e, run) refl
