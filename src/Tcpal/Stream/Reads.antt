-- ===== src/Tcpal/Stream/Reads.antt =====
-- What the stream's meaning gives for a run of bytes that stays inside one packet.
use swnet_linux.Base.{
  ℕ, ◌+◌, ◌≤◌, ◌<◌, ◌≡◌, refl, ap, ◌∙◌, List, [], ◌∷◌, ◌++◌, none, some, ltb, if◌then◌else◌, length,
  take, length-append, take-append_le, take-length, append_assoc, append-nil, lt→ltb, ge→ltb, arith,
}
use swnet_linux.Ncb.{Parser}
use swnet_linux.Tcpal.Stream.{more, complete, bad, frame_total, judge, run}

module _ (cb : ℕ) (parser : Parser) where
  -- What is known of the packet under way once its header is complete.
  pub record Announced (p : List ℕ) (t : ℕ) : Type 0 where
    pub whole : cb ≤ length p
    pub total : frame_total cb parser (take cb p) ≡ some t

  pub Announced-append : (p xs : List ℕ) {t : ℕ} → Announced p t → Announced (p ++ xs) t
  Announced-append p xs a = record {
    whole = omega (arith, length-append p xs, a.whole);
    total = rw (take-append_le cb p xs a.whole) a.total;
  }

  -- An announced packet is longer than its header.
  pub frame_total_gt : (head : List ℕ) (t : ℕ) → frame_total cb parser head ≡ some t → cb < t
  frame_total_gt head t e = ground arith

  judge-header_part : (q : List ℕ) → length q < cb → judge cb parser q ≡ more
  unfolding judge
  judge-header_part q h = rw (lt→ltb (length q) cb h) refl

  judge-Announced :
      (q : List ℕ) (t : ℕ)
      → Announced q t
      → judge cb parser q ≡ (if ltb (length q) t then more else complete)
  unfolding judge
  judge-Announced q t a = rw (ge→ltb (length q) cb a.whole, a.total) refl

  judge-body_part : (q : List ℕ) (t : ℕ) → Announced q t → length q < t → judge cb parser q ≡ more
  judge-body_part q t a h =
      judge-Announced q t a ∙ ap (λ b. if b then more else complete) (lt→ltb (length q) t h)

  judge-end : (q : List ℕ) (t : ℕ) → Announced q t → t ≤ length q → judge cb parser q ≡ complete
  judge-end q t a h =
      judge-Announced q t a ∙ ap (λ b. if b then more else complete) (ge→ltb (length q) t h)

  -- A byte that completes nothing is kept.
  run-more :
      (p : List ℕ) (x : ℕ) (xs : List ℕ)
      → judge cb parser (p ++ (x ∷ [])) ≡ more
      → run cb parser (p ++ (x ∷ [])) xs ≡ some ([], (p ++ (x ∷ [])) ++ xs)
      → run cb parser p (x ∷ xs) ≡ some ([], p ++ (x ∷ xs))
  unfolding run
  run-more p x xs e r = rw (e, run) (r ∙ ap (λ k. some ([], k)) (append_assoc p (x ∷ []) xs))

  run-nil : (p : List ℕ) → run cb parser p [] ≡ some ([], p ++ [])
  unfolding run
  run-nil p = rw (append-nil p)

  -- Bytes that leave the header incomplete are kept.
  pub run-header_part :
      (p xs : List ℕ) → length p + length xs < cb → run cb parser p xs ≡ some ([], p ++ xs)
  run-header_part p [] h = run-nil p
  run-header_part p (x ∷ xs) h =
      let l = length-append p (x ∷ []) in
      run-more p x xs (judge-header_part (p ++ (x ∷ [])) (omega arith))
        (run-header_part (p ++ (x ∷ [])) xs (omega arith))

  -- Bytes that do not reach the announced end are kept.
  pub run-body_part :
      (p xs : List ℕ) (t : ℕ)
      → Announced p t
      → length p + length xs < t
      → run cb parser p xs ≡ some ([], p ++ xs)
  run-body_part p [] t a h = run-nil p
  run-body_part p (x ∷ xs) t a h =
      let l = length-append p (x ∷ []) in
      let a' = Announced-append p (x ∷ []) a in
      run-more p x xs (judge-body_part (p ++ (x ∷ [])) t a' (omega arith))
        (run-body_part (p ++ (x ∷ [])) xs t a' (omega arith))

  -- Bytes that reach the announced end exactly complete the packet.
  pub run-packet :
      (p xs : List ℕ) (t : ℕ)
      → Announced p t
      → length p < t
      → length p + length xs ≡ t
      → run cb parser p xs ≡ some ((p ++ xs) ∷ [], [])
  unfolding run
  run-packet p [] t a h e = absurd (omega arith)
  run-packet p (x ∷ []) t a h e =
      let l = length-append p (x ∷ []) in
      rw (judge-end (p ++ (x ∷ [])) t (Announced-append p (x ∷ []) a) (omega arith), run) refl
  run-packet p (x ∷ y ∷ xs) t a h e =
      let l = length-append p (x ∷ []) in
      let a' = Announced-append p (x ∷ []) a in
      rw (judge-body_part (p ++ (x ∷ [])) t a' (omega arith), run)
        (run-packet (p ++ (x ∷ [])) (y ∷ xs) t a' (omega arith) (omega arith)
          ∙ ap (λ k. some (k ∷ [], [])) (append_assoc p (x ∷ []) (y ∷ xs)))

  judge-header :
      (q : List ℕ)
      → length q ≡ cb
      → (t : ℕ) → frame_total cb parser q ≡ some t
      → judge cb parser q ≡ more
  judge-header q l t e =
      judge-body_part q t
        (record { whole = omega arith; total = rw (take-length cb q (omega arith)) e })
        (omega (arith, frame_total_gt q t e))

  judge-header_bad :
      (q : List ℕ) → length q ≡ cb → frame_total cb parser q ≡ none → judge cb parser q ≡ bad
  unfolding judge
  judge-header_bad q l e =
      rw (ge→ltb (length q) cb (omega arith), take-length cb q (omega arith), e) refl

  -- Bytes that complete an acceptable header are kept.
  pub run-header :
      (p xs : List ℕ) (t : ℕ)
      → length p < cb
      → length p + length xs ≡ cb
      → frame_total cb parser (p ++ xs) ≡ some t
      → run cb parser p xs ≡ some ([], p ++ xs)
  run-header p [] t h l e = absurd (omega arith)
  run-header p (x ∷ []) t h l e =
      run-more p x [] (judge-header (p ++ (x ∷ [])) (omega (arith, length-append p (x ∷ []))) t e)
        (run-nil (p ++ (x ∷ [])))
  run-header p (x ∷ y ∷ xs) t h l e =
      let l' = length-append p (x ∷ []) in
      run-more p x (y ∷ xs) (judge-header_part (p ++ (x ∷ [])) (omega arith)) (
        run-header (p ++ (x ∷ [])) (y ∷ xs) t (omega arith) (omega arith)
          (rw (append_assoc p (x ∷ []) (y ∷ xs)) e))

  -- Bytes that complete a header which the parser refuses end the stream.
  pub run-header_bad :
      (p xs : List ℕ)
      → length p < cb
      → length p + length xs ≡ cb
      → frame_total cb parser (p ++ xs) ≡ none
      → run cb parser p xs ≡ none
  unfolding run
  run-header_bad p [] h l e = absurd (omega arith)
  run-header_bad p (x ∷ []) h l e =
      rw (judge-header_bad (p ++ (x ∷ [])) (omega (arith, length-append p (x ∷ []))) e, run) refl
  run-header_bad p (x ∷ y ∷ xs) h l e =
      let l' = length-append p (x ∷ []) in
      rw (judge-header_part (p ++ (x ∷ [])) (omega arith), run)
        (run-header_bad (p ++ (x ∷ [])) (y ∷ xs) (omega arith) (omega arith)
          (rw (append_assoc p (x ∷ []) (y ∷ xs)) e))
