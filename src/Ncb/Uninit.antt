-- ===== src/Ncb/Uninit.antt =====
-- ncb.c: ncb_uninit, which closes every link of a protocol. The program's globals are the list of
-- all links (`nl_head`) and their count (`nl_count`); a handle is closed by objclos.
use swnet_linux.Base.{
  ℕ, zero, suc, ◌+◌, ◌<◌, ◌≤◌, ◌≡◌, refl, sym, ap, ◌∙◌, List, [], ◌∷◌, ◌++◌, map, append_assoc,
  append-nil, Bool, true, false, not, ◌==◌, ltb, lt→ltb, if◌then◌else◌, length, length-append, inl,
  inr, Bool-cases, arith,
}
use swnet_linux.Base.Run.{Run, fault, done, ◌>>=◌}
use swnet_linux.Ncb.{Ncb}

-- The links of the protocol, and those of another.
abbrev pub of_protocol : ℕ → List Ncb → List Ncb
of_protocol protocol [] = []
of_protocol protocol (ncb ∷ links) =
    let rest = of_protocol protocol links in if ncb.protocol == protocol then ncb ∷ rest else rest

abbrev pub of_others : ℕ → List Ncb → List Ncb
of_others protocol [] = []
of_others protocol (ncb ∷ links) =
    let rest = of_others protocol links in if ncb.protocol == protocol then rest else ncb ∷ rest

abbrev keep : Ncb → Run (List ℕ × List Ncb) → Run (List ℕ × List Ncb)
keep ncb r = r >>= (λ found. done (found.0, ncb ∷ found.1))

-- The loop over the list: the handles written to `hlds`, which has room for `cap`, and the links
-- that stay in the list. To write behind the end is undefined.
unfoldable pub collect : ℕ → ℕ → List Ncb → List ℕ → Run (List ℕ × List Ncb)
collect cap protocol [] hlds = done (hlds, [])
collect cap protocol (ncb ∷ links) hlds =
    let taken = collect cap protocol links (hlds ++ (ncb.hld ∷ [])) in
    let kept = keep ncb (collect cap protocol links hlds) in
    if ncb.protocol == protocol then if ltb (length hlds) cap then taken else fault else kept

-- What ncb_uninit closes, in order, the links that stay in the list, and whether `hlds` is freed
-- where it was allocated.
pub record Uninit : Type 0 where
  pub closed : List ℕ
  pub links : List Ncb
  pub allocated : Bool
  pub freed : Bool

unfoldable pub ncb_uninit : ℕ → Bool → ℕ → List Ncb → Run Uninit
unfolding collect
ncb_uninit protocol memory nl_count links =
    let nothing : Uninit = record {
      closed = [];
      links = links;
      allocated = false;
      freed = false;
    } in
    let all = collect nl_count protocol links [] >>= (λ found. done (record {
      closed = found.0;
      links = found.1;
      allocated = true;
      freed = not (length found.0 == 0);
    })) in
    if nl_count == 0 then done nothing else if memory then all else done nothing

abbrev pub hlds_of : List Ncb → List ℕ
hlds_of = map (λ ncb. ncb.hld)

length-hlds_of : (links : List Ncb) → length (hlds_of links) ≡ length links
length-hlds_of [] = refl
length-hlds_of (ncb ∷ links) = ap suc (length-hlds_of links)

==_no : (k : ℕ) → (suc k == 0) ≡ false
==_no k = ground arith

collect_lem :
    (cap protocol : ℕ) (links : List Ncb) (hlds : List ℕ)
    → length hlds + length links ≤ cap
    → collect cap protocol links hlds
      ≡ done (hlds ++ hlds_of (of_protocol protocol links), of_others protocol links)
unfolding collect
collect_lem cap protocol [] hlds h = ap (λ l. done (l, [])) (sym (append-nil hlds))
collect_lem cap protocol (ncb ∷ links) hlds h = elim (Bool-cases (ncb.protocol == protocol)) [
  | inl same ↦
      rw (same, lt→ltb (length hlds) cap (omega arith))
        (collect_lem cap protocol links (hlds ++ (ncb.hld ∷ []))
            (omega (arith, length-append hlds (ncb.hld ∷ [])))
          ∙ ap (λ l. done (l, of_others protocol links))
              (append_assoc hlds (ncb.hld ∷ []) (hlds_of (of_protocol protocol links))))
  | inr other ↦ rw other (ap (keep ncb) (collect_lem cap protocol links hlds (omega arith)))
]

-- Where `nl_count` counts at least the links of the list, there is a link, and there is memory:
-- ncb_uninit writes no handle behind the end of `hlds`, closes exactly the links of the protocol,
-- each once and in the order of the list, and leaves exactly the others in the list; and it frees
-- `hlds` if and only if it closed a link.
pub ncb_uninit_closes :
    (protocol nl_count : ℕ) (links : List Ncb)
    → length links ≤ nl_count
    → 0 < nl_count
    → ncb_uninit protocol true nl_count links
      ≡ done (record {
        closed = hlds_of (of_protocol protocol links);
        links = of_others protocol links;
        allocated = true;
        freed = not (length (of_protocol protocol links) == 0);
      })
unfolding ncb_uninit
ncb_uninit_closes protocol zero links h n = absurd (omega arith)
ncb_uninit_closes protocol (suc k) links h n =
    let mine = of_protocol protocol links in
    rw ((==_no k)) (
      ap
        (λ c. c >>= (λ found. done (record {
          closed = found.0;
          links = found.1;
          allocated = true;
          freed = not (length found.0 == 0);
        })))
        (collect_lem (suc k) protocol links [] (omega arith))
      ∙ ap
          (λ l. done (record {
            closed = hlds_of mine;
            links = of_others protocol links;
            allocated = true;
            freed = not (l == 0);
          }))
          (length-hlds_of mine))
