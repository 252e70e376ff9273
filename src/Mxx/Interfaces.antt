-- ===== src/Mxx/Interfaces.antt =====
-- mxx.c: nis_getifmisc, the IPv4 interfaces of the machine.
pub mod Calls
use swnet_linux.Base.{
  ℕ, zero, suc, ◌+◌, ◌*◌, ◌-◌, ◌/◌, ◌||◌, List, [], ◌∷◌, Option, none, some, Bool, true, false,
  ◌==◌, not, ◌&&◌, ltb, leb, if◌then◌else◌, length, take, einval, eagain,
}
use swnet_linux.Base.Int.{ℤ, pos, neg, is_neg, is_nonpos, to_ℕ}
use swnet_linux.Base.Run.{Run, fault, done, ◌>>=◌}

-- AF_INET
abbrev pub af_inet : ℕ
af_inet = 2

-- An entry of the list that getifaddrs(3) gives: its name, the family and the four bytes of its
-- address, and those of its network mask and of its broadcast address; a null pointer is none.
pub record IfAddr : Type 0 where
  pub name : List ℕ
  pub addr : Option (ℕ × ℕ)
  pub netmask : Option ℕ
  pub broadaddr : Option ℕ

-- ifmisc_t
pub record Ifmisc : Type 0 where
  pub interface_name : List ℕ
  pub addr : ℕ
  pub netmask : ℕ
  pub boardcast : ℕ

-- The first pass counts the IPv4 entries. To read the family through a null pointer is undefined.
unfoldable pub count_inet : List IfAddr → Run ℕ
count_inet [] = done 0
count_inet (ifa ∷ ifs) = do
  count ← count_inet ifs
  elim ifa.addr [ none ↦ fault | some a ↦ done (if a.0 == af_inet then count + 1 else count) ]

unfoldable pub entry_of : ℕ → List ℕ → ℕ → Option ℕ → Option ℕ → Run Ifmisc
entry_of name_size name addr none broad = fault
entry_of name_size name addr (some mask) none = fault
entry_of name_size name addr (some mask) (some broad) = done (record {
  interface_name = take (name_size - 1) name;
  addr = addr;
  netmask = mask;
  boardcast = broad;
})

-- The second pass, into an array with room for `room` entries.
unfoldable pub fill_inet : ℕ → ℕ → List IfAddr → Run (List Ifmisc)
unfolding entry_of
fill_inet name_size room [] = done []
fill_inet name_size zero (ifa ∷ ifs) = elim ifa.addr [
  | none ↦ fault
  | some a ↦ if a.0 == af_inet then fault else fill_inet name_size zero ifs
]
fill_inet name_size (suc room) (ifa ∷ ifs) =
    let others = fill_inet name_size (suc room) ifs in
    let rest = fill_inet name_size room ifs in
    elim ifa.addr [
      | none ↦ fault
      | some a ↦
          if a.0 == af_inet
          then entry_of name_size ifa.name a.1 ifa.netmask ifa.broadaddr
            >>= (λ entry. rest >>= (λ entries. done (entry ∷ entries)))
          else others
    ]

-- What getifaddrs(3) answers: an errno, or the list.
pub data IfAddrs : Type 0 where
  no_list : ℕ → IfAddrs
  listed : List IfAddr → IfAddrs

-- The return code, `*cbifv` afterwards where there is one, and what is stored.
abbrev pub Misc : Type 0
Misc = ℤ × Option ℤ × List Ifmisc

-- The sizes of ifmisc_t and of the name in it, which nisdef.h defines, are `entry_size` and
-- `name_size`.
module _ (makeerror : ℕ → ℤ) (entry_size name_size : ℕ) where
  -- From the count on; `cb` is what `*cbifv` was, and 0 where it was negative.
  unfoldable pub getifmisc_list : ℕ → List IfAddr → ℤ → ℕ → Run Misc
  unfolding fill_inet
  getifmisc_list cb ifs cbifv count =
      if is_neg cbifv || ltb cb (count * entry_size)
      then done (neg eagain, some (pos (count * entry_size)), [])
      else fill_inet name_size (cb / entry_size) ifs
        >>= (λ entries. done (pos 0, some cbifv, entries))

  unfoldable pub getifmisc_in : IfAddrs → ℤ → Run Misc
  unfolding count_inet getifmisc_list
  getifmisc_in (no_list e) cbifv = done (makeerror e, some cbifv, [])
  getifmisc_in (listed ifs) cbifv = count_inet ifs >>= getifmisc_list (to_ℕ cbifv) ifs cbifv

  -- nis_getifmisc: `ifv` tells whether the caller gives an array, `cbifv` is its size where the
  -- caller gives one.
  unfoldable pub nis_getifmisc : IfAddrs → Bool → Option ℤ → Run Misc
  unfolding getifmisc_in
  nis_getifmisc ifs ifv none = done (neg einval, none, [])
  nis_getifmisc ifs ifv (some cbifv) =
      if not (is_nonpos cbifv) && not ifv
      then done (neg einval, some cbifv, [])
      else getifmisc_in ifs cbifv
