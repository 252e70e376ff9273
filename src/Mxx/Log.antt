-- ===== src/Mxx/Log.antt =====
-- The bounds of a log message.
use swnet_linux.Base.{
  ℕ, zero, suc, ◌+◌, ◌==◌, ◌<◌, ◌≤◌, ◌≡◌, refl, ap, ◌∙◌, List, [], ◌∷◌, ◌++◌, some, false, length,
  take, drop, take-length, length-take, length-drop, length-append, arith,
}
use swnet_linux.Base.Run.{fault, done, ◌>>=◌}
use swnet_linux.Mxx.{store_formatted, store_byte, c_string, nis_call_ecr}

-- A text has no byte 0.
abbrev pub IsText : List ℕ → Type 0
IsText [] = Unit {0}
IsText (b ∷ bs) = ((b == 0) ≡ false) × IsText bs

take-IsText : (n : ℕ) (bs : List ℕ) → IsText bs → IsText (take n bs)
take-IsText zero bs t = _
take-IsText (suc n) [] t = _
take-IsText (suc n) (b ∷ bs) (x, t) = (x, take-IsText n bs t)

store_byte_inside :
    (bs : List ℕ) (i x : ℕ) → i < length bs → (out : List ℕ) × (store_byte bs i x ≡ done out)
unfolding store_byte
store_byte_inside [] i x h = absurd (omega arith)
store_byte_inside (b ∷ bs) zero x h = (x ∷ bs, refl)
store_byte_inside (b ∷ bs) (suc i) x h =
    let (out, e) = store_byte_inside bs i x (omega arith) in
    (b ∷ out, ap (λ r. r >>= (λ rest. done (b ∷ rest))) e)

store_byte_behind : (bs : List ℕ) (i x : ℕ) → length bs ≤ i → store_byte bs i x ≡ fault
unfolding store_byte
store_byte_behind [] i x h = refl
store_byte_behind (b ∷ bs) zero x h = absurd (omega arith)
store_byte_behind (b ∷ bs) (suc i) x h =
    ap (λ r. r >>= (λ rest. done (b ∷ rest))) (store_byte_behind bs i x (omega arith))

-- A 0 stored inside the buffer, at or behind the end of its text, leaves the text.
store_byte-c_string :
    (text rest : List ℕ) (i : ℕ)
    → IsText text
    → length text ≤ i
    → i < length (text ++ (0 ∷ rest))
    → (out : List ℕ) × (store_byte (text ++ (0 ∷ rest)) i 0 ≡ done out) × (c_string out ≡ done text)
unfolding store_byte c_string
store_byte-c_string [] rest zero t lo hi = (0 ∷ rest, refl, refl)
store_byte-c_string [] rest (suc i) t lo hi =
    let (out, e) = store_byte_inside rest i 0 (omega arith) in
    (0 ∷ out, ap (λ r. r >>= (λ k. done (0 ∷ k))) e, refl)
store_byte-c_string (b ∷ text) rest zero t lo hi = absurd (omega arith)
store_byte-c_string (b ∷ text) rest (suc i) (x, t) lo hi =
    let (out, e, c) = store_byte-c_string text rest i t (omega arith) (omega arith) in
    (b ∷ out, ap (λ r. r >>= (λ k. done (b ∷ k))) e, rw (x, c) refl)

length-store_formatted :
    (stale message : List ℕ)
    → length stale ≡ 1280
    → length (store_formatted stale 1279 message) ≡ 1280
unfolding store_formatted
length-store_formatted stale message size =
    let kept = take 1278 message in
    omega (
      arith,
      size,
      length-append kept (0 ∷ drop (length kept + 1) stale),
      length-drop (length kept + 1) stale,
      length-take 1278 message,
    )

cut_message :
    (ecr : ℕ) (stale message : List ℕ)
    → length stale ≡ 1280
    → IsText message
    → (length message == 0) ≡ false
    → length message < 1280
    → nis_call_ecr (some ecr) stale message ≡ done (some (take 1278 message))
unfolding nis_call_ecr store_formatted
cut_message ecr stale message size t some_text h =
    let (out, e, c) =
      store_byte-c_string (take 1278 message) (drop (length (take 1278 message) + 1) stale)
        (length message) (take-IsText 1278 message t) (omega (arith, length-take 1278 message))
        (omega (arith, length-store_formatted stale message size)) in
    rw some_text (rw e (rw c refl))

-- With a callback, the 1280 bytes of logstr and a message of one byte or more, none of them 0: a
-- message of at most 1278 bytes is handed to the callback whole, and one of 1279 bytes without its
-- last. Longer ones are not cut: one of 1280 bytes or more makes nis_call_ecr store behind the end of
-- logstr.
pub nis_call_ecr_bounds :
    (ecr : ℕ) (stale message : List ℕ)
    → length stale ≡ 1280
    → IsText message
    → (length message == 0) ≡ false
    → (length message ≤ 1278 → nis_call_ecr (some ecr) stale message ≡ done (some message))
      × (length message ≡ 1279
          → nis_call_ecr (some ecr) stale message ≡ done (some (take 1278 message)))
      × (1280 ≤ length message → nis_call_ecr (some ecr) stale message ≡ fault)
unfolding nis_call_ecr
nis_call_ecr_bounds ecr stale message size t some_text = (
  λ h.
      cut_message ecr stale message size t some_text (omega arith)
      ∙ ap (λ l. done (some l)) (take-length 1278 message (omega arith)),
  λ h. cut_message ecr stale message size t some_text (omega arith),
  λ h. rw some_text (
      rw
        (store_byte_behind (store_formatted stale 1279 message) (length message) 0
          (omega (arith, length-store_formatted stale message size)))
        refl),
)
