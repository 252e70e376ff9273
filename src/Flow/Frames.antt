-- ===== src/Flow/Frames.antt =====
-- Packets on a TCP stream: a head that the template's builder writes, and the user's bytes behind
-- it. A parser that agrees with the builder reads them back.
use swnet_linux.Base.{
  ℕ, ◌+◌, ◌≤◌, ◌<◌, ◌≡◌, refl, sym, ap, ap₂, ◌∙◌, List, [], ◌∷◌, ◌++◌, map, none, some, false,
  length, take-length, append_assoc, drop-append_self, arith,
}
use swnet_linux.Base.Int.{is_neg}
use swnet_linux.Ncb.{Parser, Builder, AttrBits, has_attr, receivedata}
use swnet_linux.Tcpal.Refine.{deliveries}
use swnet_linux.Tcpal.Stream.{run, frame_total, run-append, continue_with, prefix, Reading}
use swnet_linux.Tcpal.Stream.Reads.{run-header, run-packet}

-- The packet of a payload.
abbrev pub framed : Builder → List ℕ → List ℕ
framed builder payload = (builder (length payload)).1 ++ payload

-- The packets one behind the other.
abbrev pub frames : Builder → List (List ℕ) → List ℕ
frames builder [] = []
frames builder (p ∷ ps) = framed builder p ++ frames builder ps

pub frames-append :
    (builder : Builder) (ps qs : List (List ℕ))
    → frames builder (ps ++ qs) ≡ frames builder ps ++ frames builder qs
frames-append builder [] qs = refl
frames-append builder (p ∷ ps) qs =
    ap (λ l. framed builder p ++ l) (frames-append builder ps qs)
    ∙ sym (append_assoc (framed builder p) (frames builder ps) (frames builder qs))

abbrev pub Fits : ℕ → List ℕ → Type 0
Fits limit p = (0 < length p) × (length p ≤ limit)

abbrev pub AllFit : ℕ → List (List ℕ) → Type 0
AllFit limit [] = Unit {0}
AllFit limit (p ∷ ps) = Fits limit p × AllFit limit ps

pub AllFit-append :
    (limit : ℕ) (ps qs : List (List ℕ))
    → AllFit limit ps
    → AllFit limit qs
    → AllFit limit (ps ++ qs)
AllFit-append limit [] qs a b = b
AllFit-append limit (p ∷ ps) qs (h, a) b = (h, AllFit-append limit ps qs a b)

pub AllFit-left : (limit : ℕ) (ps qs : List (List ℕ)) → AllFit limit (ps ++ qs) → AllFit limit ps
AllFit-left limit [] qs a = _
AllFit-left limit (p ∷ ps) qs (h, a) = (h, AllFit-left limit ps qs a)

-- For payloads of at most `limit` bytes the builder writes a head of the template's size, and the
-- parser finds the size of the payload in it.
pub record Agrees (cb limit : ℕ) (builder : Builder) (parser : Parser) : Type 0 where
  pub builds : (n : ℕ) → 0 < n → n ≤ limit → is_neg (builder n).0 ≡ false
  pub head_size : (n : ℕ) → 0 < n → n ≤ limit → length (builder n).1 ≡ cb
  pub reads_back : (n : ℕ) → 0 < n → n ≤ limit → frame_total cb parser (builder n).1 ≡ some (n + cb)

-- What is mapped to an append is an append.
map-append_split :
    (f : List ℕ → List ℕ) (fs gs ps : List (List ℕ))
    → fs ++ gs ≡ map f ps
    → (got others : List (List ℕ)) × (fs ≡ map f got)
      × (got ++ others ≡ ps)
      × (gs ≡ [] → others ≡ [])
map-append_split f [] gs [] e = ([], [], refl, refl, λ n. refl)
map-append_split f [] gs (p ∷ ps) e = ([], p ∷ ps, refl, refl, λ n. cc)
map-append_split f (x ∷ fs) gs [] e = cc
map-append_split f (x ∷ fs) gs (p ∷ ps) e =
    let (got, others, left, whole, right) = map-append_split f fs gs ps (cc) in
    (p ∷ got, others, ap₂ (◌∷◌) (cc) left, ap (◌∷◌ p) whole, right)

module _ (cb limit : ℕ) (builder : Builder) (parser : Parser) (some_header : 0 < cb)
    (agrees : Agrees cb limit builder parser) where
  run-framed :
      (p : List ℕ)
      → Fits limit p
      → run cb parser [] (framed builder p) ≡ some (framed builder p ∷ [], [])
  run-framed p (n, small) =
      let head = (builder (length p)).1 in
      let size : length head ≡ cb = agrees.head_size (length p) n small in
      let total : frame_total cb parser head ≡ some (length p + cb) =
        agrees.reads_back (length p) n small in
      run-append cb parser [] head p
      ∙ ap (λ r. continue_with cb parser r p)
          (run-header cb parser [] head (length p + cb) some_header (omega (arith, size)) total)
      ∙ ap (prefix []) (
          run-packet cb parser head p (length p + cb)
            (record {
              whole = omega (arith, size);
              total =
                  ap (frame_total cb parser) (take-length cb head (omega (arith, size))) ∙ total;
            })
            (omega (arith, size)) (omega (arith, size)))

  -- The packets are read back, one for each payload.
  pub run-frames :
      (ps : List (List ℕ))
      → AllFit limit ps
      → run cb parser [] (frames builder ps) ≡ some (map (framed builder) ps, [])
  unfolding run
  run-frames [] a = refl
  run-frames (p ∷ ps) (h, a) =
      run-append cb parser [] (framed builder p) (frames builder ps)
      ∙ ap (λ r. continue_with cb parser r (frames builder ps)) (run-framed p h)
      ∙ ap (prefix (framed builder p ∷ [])) (run-frames ps a)

  -- Without LINKATTR_TCP_FULLY_RECEIVE the user gets the payloads.
  pub deliveries-framed :
      (bits : AttrBits) (attr : ℕ) (ps : List (List ℕ))
      → has_attr attr bits.fully_receive ≡ false
      → AllFit limit ps
      → deliveries bits attr cb (map (framed builder) ps) ≡ map receivedata ps
  deliveries-framed bits attr [] bit a = refl
  deliveries-framed bits attr (p ∷ ps) bit ((n, small), a) =
      ap₂ (λ x l. receivedata x ∷ l)
        (rw bit (
          drop-append_self (builder (length p)).1 p cb (sym (agrees.head_size (length p) n small))))
        (deliveries-framed bits attr ps bit a)

  nothing_read :
      (q : List ℕ) (gs : List (List ℕ)) (q' : List ℕ) → run cb parser q [] ≡ some (gs, q') → gs ≡ []
  unfolding run
  nothing_read q gs q' e = cc

  -- A part of such a stream completes the packets of the first payloads.
  pub run-part :
      (ps : List (List ℕ)) (bytes rest : List ℕ)
      → AllFit limit ps
      → bytes ++ rest ≡ frames builder ps
      → (got others : List (List ℕ)) × (p' : List ℕ) × (run cb parser [] bytes
          ≡ some (map (framed builder) got, p'))
        × (got ++ others ≡ ps)
        × (rest ≡ [] → others ≡ [])
  run-part ps bytes rest a e =
      split (run cb parser [] bytes) refl
        (sym (run-append cb parser [] bytes rest) ∙ ap (run cb parser []) e ∙ run-frames ps a)
    where
      join :
          (fs : List (List ℕ)) (q : List ℕ) (r : Reading)
          → run cb parser [] bytes ≡ some (fs, q)
          → run cb parser q rest ≡ r
          → prefix fs r ≡ some (map (framed builder) ps, [])
          → (got others : List (List ℕ)) × (p' : List ℕ) × (run cb parser [] bytes
              ≡ some (map (framed builder) got, p'))
            × (got ++ others ≡ ps)
            × (rest ≡ [] → others ≡ [])
      join fs q none o t c = cc
      join fs q (some (gs, q')) o t c =
          let (got, others, left, whole, right) = map-append_split (framed builder) fs gs ps (cc) in
          (
            got,
            others,
            q,
            o ∙ ap (λ l. some (l, q)) left,
            whole,
            λ end. right (nothing_read q gs q' (sym (ap (run cb parser q) end) ∙ t)),
          )

      split :
          (r : Reading)
          → run cb parser [] bytes ≡ r
          → continue_with cb parser r rest ≡ some (map (framed builder) ps, [])
          → (got others : List (List ℕ)) × (p' : List ℕ) × (run cb parser [] bytes
              ≡ some (map (framed builder) got, p'))
            × (got ++ others ≡ ps)
            × (rest ≡ [] → others ≡ [])
      split none o c = cc
      split (some (fs, q)) o c = join fs q (run cb parser q rest) o refl c
