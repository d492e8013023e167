-- ===== src/EtherArp/Room.antt =====
-- Making room in the table takes at least one item out.
use dts_net.Base.{ℕ, suc, ◌≡◌, ◌≤◌, ◌<◌, refl, arith, inl, inr}
use dts_net.Base.{Bool, true, false, none, some, List, [], ◌∷◌, if◌then◌else◌, ◌==◌, ltb, length}
use dts_net.Base.{Bool-cases}
use dts_net.EtherArp.Defs.{ArpItem}
use dts_net.EtherArp.Table.{Clock, unexpired, shortest, remove_item, remove_shortest, make_room}

pub length-unexpired : (clock : Clock) (is : List ArpItem) → length (unexpired clock is) ≤ length is
unfolding unexpired
length-unexpired clock [] = omega arith
length-unexpired clock (i ∷ is) = ground (arith, length-unexpired clock is)

-- Whether a timer is the one of an item.
abbrev has : ℕ → List ArpItem → Bool
has t [] = false
has t (i ∷ is) = if i.timer == t then true else has t is

length-remove_item :
    (t : ℕ) (is : List ArpItem) → has t is ≡ true → suc (length (remove_item t is)) ≡ length is
unfolding remove_item
length-remove_item t [] h = ground arith
length-remove_item t (i ∷ is) h = elim (Bool-cases (i.timer == t)) [
  | inl same ↦ ground arith
  | inr other ↦
      (let deeper : has t is ≡ true = ground arith in
        ground (arith, length-remove_item t is deeper))
]

has-either :
    (c : Bool) (i b : ArpItem) (js : List ArpItem)
    → has i.timer js ≡ true
    → has b.timer js ≡ true
    → has (if c then i else b).timer js ≡ true
has-either true i b js hi hb = hi
has-either false i b js hi hb = hb

-- The item with the least time left is one of the items.
shortest-has :
    (clock : Clock) (is js : List ArpItem) (b : ArpItem)
    → has b.timer js ≡ true
    → ((t : ℕ) → has t is ≡ true → has t js ≡ true)
    → (r : ArpItem) × (shortest clock is (some b) ≡ some r) × (has r.timer js ≡ true)
unfolding shortest
shortest-has clock [] js b h inside = (b, refl, h)
shortest-has clock (i ∷ is) js b h inside =
    let mine : has i.timer js ≡ true = inside i.timer (ground arith) in
    shortest-has clock is js (if ltb (clock.remain i) (clock.remain b) then i else b)
      (has-either (ltb (clock.remain i) (clock.remain b)) i b js mine h)
      (λ t k. inside t (ground arith))

remove_shortest-less :
    (clock : Clock) (is : List ArpItem)
    → 0 < length is
    → length (remove_shortest (shortest clock is none) is) < length is
unfolding shortest
remove_shortest-less clock [] h = absurd (omega arith)
remove_shortest-less clock (i ∷ is) h =
    let (r, e, inside) = shortest-has clock is (i ∷ is) i (ground arith) (λ t k. ground arith) in
    rw e (omega (arith, length-remove_item r.timer (i ∷ is) inside))

pub make_room-less :
    (clock : Clock) (is : List ArpItem) → 0 < length is → length (make_room clock is) < length is
unfolding make_room
make_room-less clock [] h = absurd (omega arith)
make_room-less clock (i ∷ is) h =
    elim (Bool-cases (length (unexpired clock (i ∷ is)) == length (i ∷ is))) [
      | inl none_expired ↦
          rw none_expired (ground (arith, remove_shortest-less clock (unexpired clock (i ∷ is))))
      | inr some_expired ↦ rw some_expired (ground (arith, length-unexpired clock (i ∷ is)))
    ]
