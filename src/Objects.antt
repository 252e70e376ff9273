-- ===== src/Objects.antt =====
-- The live links by their handles. objrefr(3) of the platform's object library gives the link of a
-- handle; a callback on a link changes it where it stands.
use swnet_linux.Base.{ℕ, ◌≡◌, ap, List, [], ◌∷◌, ◌++◌, false, ◌==◌, if◌then◌else◌, arith}
use swnet_linux.Ncb.{Ncb}

abbrev pub Objects : Type 0
Objects = List Ncb

-- The first link with this handle, changed by `f`; without one nothing changes.
unfoldable pub on_object : (Ncb → Ncb) → ℕ → Objects → Objects
on_object f hld [] = []
on_object f hld (ncb ∷ rest) =
    let others = on_object f hld rest in if ncb.hld == hld then f ncb ∷ rest else ncb ∷ others

-- No link here has the handle.
abbrev pub AreOthers : ℕ → Objects → Type 0
AreOthers hld [] = Unit {0}
AreOthers hld (ncb ∷ rest) = ((ncb.hld == hld) ≡ false) × AreOthers hld rest

pub on_object_at :
    (f : Ncb → Ncb) (before after : Objects) (ncb : Ncb)
    → AreOthers ncb.hld before
    → on_object f ncb.hld (before ++ (ncb ∷ after)) ≡ before ++ (f ncb ∷ after)
unfolding on_object
on_object_at f [] after ncb h = ground arith
on_object_at f (x ∷ before) after ncb (n, h) = rw n (ap (◌∷◌ x) (on_object_at f before after ncb h))
