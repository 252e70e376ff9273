-- ===== src/Mxx/Interfaces/Calls.antt =====
-- Asking for the interfaces: the first call tells the size, the second fills the array.
use native.Mathlib.Nat.{mul-div_cancel, mul-pos}
use swnet_linux.Base.{
  ℕ, zero, suc, ◌+◌, ◌*◌, ◌-◌, ◌<◌, ◌≤◌, ◌≡◌, refl, ap, List, [], ◌∷◌, some, Bool, true, false, not,
  ◌&&◌, ◌==◌, ge→ltb, lt→ltb, take, eagain, arith,
}
use swnet_linux.Base.Int.{ℤ, pos, neg, is_nonpos}
use swnet_linux.Base.Run.{done}
use swnet_linux.Mxx.Interfaces.{
  af_inet, IfAddr, Ifmisc, count_inet, entry_of, fill_inet, listed, getifmisc_list, getifmisc_in,
  nis_getifmisc,
}

module _ (name_size : ℕ) where
  -- Every entry has an address, every IPv4 entry also a mask and a broadcast address; there are `n`
  -- IPv4 entries, and these are their data.
  pub data Inet : List IfAddr → ℕ → List Ifmisc → Type 0 where
    all_seen : Inet [] 0 []
    other :
        (ifa : IfAddr) (ifs : List IfAddr) (n : ℕ) (entries : List Ifmisc) (a : ℕ × ℕ)
        → ifa.addr ≡ some a
        → (a.0 == af_inet) ≡ false
        → Inet ifs n entries
        → Inet (ifa ∷ ifs) n entries
    inet :
        (ifa : IfAddr) (ifs : List IfAddr) (n : ℕ) (entries : List Ifmisc) (a mask broad : ℕ)
        → ifa.addr ≡ some (af_inet, a)
        → ifa.netmask ≡ some mask
        → ifa.broadaddr ≡ some broad
        → Inet ifs n entries
        → Inet (ifa ∷ ifs) (suc n) (
            record {
              interface_name = take (name_size - 1) ifa.name;
              addr = a;
              netmask = mask;
              boardcast = broad;
            }
            ∷ entries)

  count_lem :
      {ifs : List IfAddr} {n : ℕ} {entries : List Ifmisc}
      → Inet ifs n entries
      → count_inet ifs ≡ done n
  unfolding count_inet
  count_lem all_seen = refl
  count_lem (other ifa ifs n entries a e f i) = rw (count_inet, count_lem i, e, f) refl
  count_lem (inet ifa ifs n entries a mask broad e m b i) =
      rw (count_inet, count_lem i, e) (ap done (plus_one n))
    where
      plus_one : (k : ℕ) → k + 1 ≡ suc k
      plus_one k = omega arith

  fill_lem :
      (room : ℕ) {ifs : List IfAddr} {n : ℕ} {entries : List Ifmisc}
      → Inet ifs n entries
      → n ≤ room
      → fill_inet name_size room ifs ≡ done entries
  unfolding fill_inet entry_of
  fill_lem zero all_seen h = refl
  fill_lem (suc room) all_seen h = refl
  fill_lem zero (other ifa ifs n entries a e f i) h = rw (fill_inet, e, f) (fill_lem zero i h)
  fill_lem (suc room) (other ifa ifs n entries a e f i) h =
      rw (fill_inet, e, f) (fill_lem (suc room) i h)
  fill_lem zero (inet ifa ifs n entries a mask broad e m b i) h = absurd (omega arith)
  fill_lem (suc room) (inet ifa ifs n entries a mask broad e m b i) h =
      rw (fill_inet, e, m, b, fill_lem room i (omega arith)) refl

and_false : (b : Bool) → (b && false) ≡ false
and_false true = refl
and_false false = refl

module _ (makeerror : ℕ → ℤ) (entry_size name_size : ℕ) where
  -- For the IPv4 interfaces of a machine, one or more of them, each with a mask and a broadcast
  -- address and no entry without an address: nis_getifmisc called without an array and with the
  -- size 0 returns -EAGAIN with the size that is needed, and called again with an array of just
  -- that size it returns 0 and stores exactly those interfaces, in order, and nothing behind the
  -- array.
  pub nis_getifmisc_twice :
      (ifs : List IfAddr) (n : ℕ) (entries : List Ifmisc)
      → Inet name_size ifs n entries
      → 0 < n
      → 0 < entry_size
      → (nis_getifmisc makeerror entry_size name_size (listed ifs) false (some (pos 0))
          ≡ done (neg eagain, some (pos (n * entry_size)), []))
        × (nis_getifmisc makeerror entry_size name_size
              (listed ifs)
              true
              (some (pos (n * entry_size)))
            ≡ done (pos 0, some (pos (n * entry_size)), entries))
  unfolding nis_getifmisc getifmisc_in getifmisc_list
  nis_getifmisc_twice ifs n entries i some_entry some_size = (
    rw (count_lem name_size i, lt→ltb 0 (n * entry_size) (mul-pos some_entry some_size)) refl,
    rw
        (
          count_lem name_size i,
          ge→ltb (n * entry_size) (n * entry_size) (omega arith),
          mul-div_cancel n some_size,
          fill_lem name_size n i (omega arith),
        )
        (rw (and_false (not (is_nonpos (pos (n * entry_size))))) refl),
  )
