-- ===== src/Tests/Interfaces.antt =====
-- The interfaces of the machine: an instance.
use swnet_linux.Base.{◌≡◌, refl, [], ◌∷◌, none, some, true, false, arith, eagain}
use swnet_linux.Base.Int.{pos, neg}
use swnet_linux.Base.Run.{done}
use swnet_linux.Mxx.Interfaces.{IfAddr, Ifmisc, listed, nis_getifmisc}
use swnet_linux.Mxx.Interfaces.Calls.{Inet, all_seen, other, inet, nis_getifmisc_twice}
use swnet_linux.Tests.Samples.{makeerror}

-- "lo", of another family, and "eth".
abbrev packet_if : IfAddr
packet_if = record { name = 108 ∷ 111 ∷ []; addr = some (17, 0); netmask = none; broadaddr = none }

abbrev eth_if : IfAddr
eth_if = record {
  name = 101 ∷ 116 ∷ 104 ∷ [];
  addr = some (2, 7);
  netmask = some 255;
  broadaddr = some 8;
}

abbrev eth : Ifmisc
eth = record { interface_name = 101 ∷ 116 ∷ 104 ∷ []; addr = 7; netmask = 255; boardcast = 8 }

one : Inet 16 (packet_if ∷ eth_if ∷ []) 1 (eth ∷ [])
one =
    other packet_if (eth_if ∷ []) 1 (eth ∷ []) (17, 0) refl refl
      (inet eth_if [] 0 [] 7 255 8 refl refl refl all_seen)

nis_getifmisc_twice_example :
    (nis_getifmisc makeerror 28 16 (listed (packet_if ∷ eth_if ∷ [])) false (some (pos 0))
      ≡ done (neg eagain, some (pos 28), []))
    × (nis_getifmisc makeerror 28 16 (listed (packet_if ∷ eth_if ∷ [])) true (some (pos 28))
        ≡ done (pos 0, some (pos 28), eth ∷ []))
nis_getifmisc_twice_example =
    nis_getifmisc_twice makeerror 28 16 (packet_if ∷ eth_if ∷ []) 1 (eth ∷ []) one (omega arith)
      (omega arith)
