-- ===== src/Dblk/Refusal.antt =====
-- `dblk_fragment` of dts_net_dblk.c where the memory for a fragment is refused.
use dts_net.Base.{ℕ, zero, suc, ◌+◌, ◌-◌, ◌≡◌, ◌≤◌, ◌<◌, refl, arith, ap, sym, ◌∙◌, true, false}
use dts_net.Base.{Option, none, some, [], ◌∷◌, if◌then◌else◌, ltb, ◌==◌, length, take, replicate}
use dts_net.Base.{take_all, length-replicate, dec_lt}
use dts_net.Dblk.Defs.{Node, Chain, dblk_size}
use dts_net.Dblk.Alloc.{Heap, malloc}
use dts_net.Dblk.Fragment.{span, fragment_loop, fragment_count, dblk_fragment, blank}
use dts_net.Dblk.Fragment.{one_more, new_nodes, fill_nodes, dblk_fragment_alloc}

-- The next `k` requests are granted.
abbrev pub AreGranted : Heap → ℕ → Type 0
AreGranted h k = (i : ℕ) → i < k → h.grant (h.asked + i) ≡ true

-- The heap after `k` requests that were granted.
abbrev asked_for : ℕ → Heap → Heap
asked_for k h = record h { asked = h.asked + k; live = h.live + k }

abbrev more_by : ℕ → Option ℕ × Heap → Option ℕ × Heap
more_by k (none, h) = (none, h)
more_by k (some j, h) = (some (k + j), h)

one_more-more_by : (k : ℕ) (r : Option ℕ × Heap) → one_more (more_by k r) ≡ more_by (suc k) r
one_more-more_by k (none, h) = refl
one_more-more_by k (some j, h) = let e : suc (k + j) ≡ suc k + j = omega arith in rw e refl

more_by-zero : (r : Option ℕ × Heap) → r ≡ more_by 0 r
more_by-zero (none, h) = refl
more_by-zero (some j, h) = let e : 0 + j ≡ j = omega arith in rw e refl

-- Requests that are granted make nodes.
new_nodes-granted :
    (k m : ℕ) (h : Heap)
    → AreGranted h k
    → new_nodes (k + m) h ≡ more_by k (new_nodes m (asked_for k h))
unfolding new_nodes malloc
new_nodes-granted zero m h granted =
    let e : 0 + m ≡ m = omega arith in
    let a : h.asked + 0 ≡ h.asked = omega arith in
    let l : h.live + 0 ≡ h.live = omega arith in rw (e, a, l) (more_by-zero (new_nodes m h))
new_nodes-granted (suc k) m h granted =
    let e : suc k + m ≡ suc (k + m) = omega arith in
    let at_0 : h.asked + 0 ≡ h.asked = omega arith in
    let first : h.grant h.asked ≡ true = ap h.grant (omega arith) ∙ granted 0 (omega arith) in
    let h1 = asked_for 1 h in
    let later : AreGranted h1 k =
      λ i small. ap h.grant (omega arith) ∙ granted (suc i) (omega arith) in
    let a : h.asked + 1 + k ≡ h.asked + suc k = omega arith in
    let l : h.live + 1 + k ≡ h.live + suc k = omega arith in
    rw (e, first)
      (ap one_more (new_nodes-granted k m h1 later)
        ∙ (one_more-more_by k (new_nodes m (asked_for k h1)) ∙ (rw (a, l) refl)))

-- What is left of the requests after those that were granted.
refused-last : (h : Heap) → h.grant h.asked ≡ false → (new_nodes 1 h).0 ≡ some 0
unfolding new_nodes malloc
refused-last h refused = rw refused refl

refused-early : (n : ℕ) (h : Heap) → h.grant h.asked ≡ false → (new_nodes (suc (suc n)) h).0 ≡ none
unfolding new_nodes malloc
refused-early n h refused =
    let another : (suc n == 0) ≡ false = ground arith in rw (refused, another) refl

take-blanks : (k n : ℕ) → k ≤ n → take k (replicate n blank) ≡ replicate k blank
take-blanks zero n h = refl
take-blanks (suc k) zero h = absurd (omega arith)
take-blanks (suc k) (suc n) h = ap (◌∷◌ blank) (take-blanks k n (omega arith))

loop_past_end : (n offset fsize : ℕ) → fragment_loop n [] offset fsize ≡ replicate n blank
unfolding fragment_loop
loop_past_end zero offset fsize = refl
loop_past_end (suc n) offset fsize = refl

-- Fewer nodes take the first fragments.
fragment_loop-prefix :
    (k n : ℕ) (ds : Chain) (offset fsize : ℕ)
    → k ≤ n
    → take k (fragment_loop n ds offset fsize) ≡ fragment_loop k ds offset fsize
unfolding fragment_loop
fragment_loop-prefix zero n ds offset fsize h = refl
fragment_loop-prefix (suc k) zero ds offset fsize h = absurd (omega arith)
fragment_loop-prefix (suc k) (suc n) [] offset fsize h = take-blanks (suc k) (suc n) h
fragment_loop-prefix (suc k) (suc n) (d ∷ ds) offset fsize h =
    let rest = span ds (offset + fsize - d.size) in
    ground (
      arith,
      fragment_loop-prefix k n (d ∷ ds) (offset + fsize) fsize (omega arith),
      fragment_loop-prefix k n rest.0 rest.1 fsize (omega arith),
      fragment_loop-prefix k n ds 0 fsize (omega arith),
    )

length-fragment_loop :
    (n : ℕ) (ds : Chain) (offset fsize : ℕ) → length (fragment_loop n ds offset fsize) ≤ n
unfolding fragment_loop
length-fragment_loop zero ds offset fsize = omega arith
length-fragment_loop (suc n) [] offset fsize = omega (arith, length-replicate (suc n) blank)
length-fragment_loop (suc n) (d ∷ ds) offset fsize =
    let rest = span ds (offset + fsize - d.size) in
    ground (
      arith,
      length-fragment_loop n (d ∷ ds) (offset + fsize) fsize,
      length-fragment_loop n rest.0 rest.1 fsize,
      length-fragment_loop n ds 0 fsize,
    )

module _ (d : Node) (ds : Chain) (fsize k : ℕ) (h : Heap) (some_bytes : 0 < d.size)
    (granted : AreGranted h k) where
  abbrev count : ℕ
  count = fragment_count (dblk_size (d ∷ ds)) fsize

  is_some : (d.size == 0) ≡ false
  is_some = ground arith

  made :
      (n : ℕ) (r : Option ℕ × Heap)
      → n ≡ count
      → new_nodes n h ≡ r
      → dblk_fragment_alloc (d ∷ ds) fsize h ≡ fill_nodes (d ∷ ds) fsize r
  unfolding dblk_fragment_alloc
  made n r same e = rw (is_some, sym same, e) refl

  every : dblk_fragment (d ∷ ds) fsize ≡ fragment_loop count (d ∷ ds) 0 fsize
  unfolding dblk_fragment
  every = rw is_some refl

  -- The nodes that `k` requests gave, out of `m` more.
  after_granted :
      (m : ℕ) (r : Option ℕ)
      → k + m ≡ count
      → (new_nodes m (asked_for k h)).0 ≡ r
      → (dblk_fragment_alloc (d ∷ ds) fsize h).0 ≡ (fill_nodes (d ∷ ds) fsize (more_by k (r, h))).0
  after_granted m r same e =
      ap (λ x. x.0)
        (made (k + m) (more_by k (new_nodes m (asked_for k h))) same
          (new_nodes-granted k m h granted))
      ∙ (fill_first (new_nodes m (asked_for k h))
          ∙ ap (λ o. (fill_nodes (d ∷ ds) fsize (more_by k (o, h))).0) e)
    where
      fill_first :
          (r : Option ℕ × Heap)
          → (fill_nodes (d ∷ ds) fsize (more_by k r)).0
            ≡ (fill_nodes (d ∷ ds) fsize (more_by k (r.0, h))).0
      fill_first (none, h1) = refl
      fill_first (some j, h1) = refl

-- Of a block with bytes, where `k` requests for memory are granted and the next one is refused: if that
-- is a request for a fragment other than the last, `dblk_fragment` writes through NULL. Otherwise it
-- gives the first `k` of the fragments that it gives with memory for all: all but the last where the
-- request for that one is refused, and all where none is.
pub dblk_fragment_alloc-refused :
    (d : Node) (ds : Chain) (fsize k : ℕ) (h : Heap)
    → 0 < d.size
    → AreGranted h k
    → h.grant (h.asked + k) ≡ false
    → (dblk_fragment_alloc (d ∷ ds) fsize h).0 ≡ (
        if ltb (suc k) (fragment_count (dblk_size (d ∷ ds)) fsize)
        then none
        else some (take k (dblk_fragment (d ∷ ds) fsize)))
unfolding new_nodes
dblk_fragment_alloc-refused d ds fsize k h some_bytes granted refused =
    let n = fragment_count (dblk_size (d ∷ ds)) fsize in
    let all = every d ds fsize k h some_bytes granted in
    elim (dec_lt (suc k) n) [
      | yes early ↦
          (let same : k + suc (suc (n - suc (suc k))) ≡ n = omega arith in
            let early_b : ltb (suc k) n ≡ true = ground arith in
            rw early_b (
              after_granted d ds fsize k h some_bytes granted (suc (suc (n - suc (suc k)))) none
                same (refused-early (n - suc (suc k)) (asked_for k h) refused)))
      | no late ↦
          (let late_b : ltb (suc k) n ≡ false = ground arith in
            rw (late_b, all)
              (elim (dec_lt k n) [
                | yes last ↦
                    (let same : k + 1 ≡ n = omega arith in
                      let e : k + 0 ≡ k = omega arith in
                      after_granted d ds fsize k h some_bytes granted 1 (some 0) same
                        (refused-last (asked_for k h) refused)
                      ∙ (rw (e, fragment_loop-prefix k n (d ∷ ds) 0 fsize (omega arith)) refl))
                | no beyond ↦
                    (let same : n + 0 ≡ n = omega arith in
                      let short = length-fragment_loop n (d ∷ ds) 0 fsize in
                      after_granted d ds fsize n h some_bytes (λ i small. granted i (omega arith)) 0
                        (some 0) same refl
                      ∙ (rw (same, take_all k (fragment_loop n (d ∷ ds) 0 fsize) (omega arith))
                          refl))
              ]))
    ]
