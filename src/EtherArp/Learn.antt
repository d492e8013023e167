-- ===== src/EtherArp/Learn.antt =====
-- Learning an address: it ends, the table stays within its pool, and the address is found.
use dts_net.Base.{ℕ, ◌+◌, ◌-◌, ◌≡◌, ◌<◌, refl, arith, inl, inr, ap, ◌∙◌}
use dts_net.Base.{Bool, true, false, some, List, [], ◌∷◌, ◌++◌, ◌==◌, length}
use dts_net.Base.{Bool-cases, length-append, take}
use dts_net.Arp.{ArpPacket}
use dts_net.EtherArp.Defs.{FindLib, ArpItem}
use dts_net.EtherArp.Table.{
  Clock, ArpTable, matches, make_room, new_item, add_item, learn_loop, learn,
}
use dts_net.EtherArp.Room.{make_room-less}

-- The items and what the pool has left.
abbrev pub capacity : ArpTable → ℕ
capacity t = length t.items + t.spare

module _ (lib : FindLib) where
  open lib use {list_find}

  find-somewhere :
      (p : ArpItem → Bool) (xs : List ArpItem) (x : ArpItem) (ys : List ArpItem)
      → p x ≡ true
      → (r : ArpItem) × (list_find ArpItem p (xs ++ (x ∷ ys)) ≡ some r) × (p r ≡ true)
  find-somewhere p [] x ys h = (x, (lib.find_cons ArpItem p x ys ∙ rw h refl), h)
  find-somewhere p (z ∷ xs) x ys h =
      let (r, e, m) = find-somewhere p xs x ys h in
      elim (Bool-cases (p z)) [
        | inl first ↦ (z, (lib.find_cons ArpItem p z _ ∙ rw first refl), first)
        | inr later ↦ (r, (lib.find_cons ArpItem p z _ ∙ rw later e), m)
      ]

  -- What learning an address does to a table.
  pub record IsLearned (t t' : ArpTable) (pkt : ArpPacket) : Type 0 where
    pub same_capacity : capacity t' ≡ capacity t
    pub known :
        (r : ArpItem) × (list_find ArpItem (matches (take 4 pkt.spa)) t'.items ≡ some r)
        × (matches (take 4 pkt.spa) r ≡ true)

  add_item-IsLearned :
      (t : ArpTable) (pkt : ArpPacket) → 0 < t.spare → IsLearned t (add_item lib t pkt) pkt
  add_item-IsLearned t pkt room =
      let x = new_item pkt t.next_timer in
      let xs = lib.before ArpItem t.items in
      let ys = lib.after ArpItem t.items in
      record {
        same_capacity = omega (
          arith,
          ap length (lib.adds ArpItem t.items x),
          ap length (lib.splits ArpItem t.items),
          length-append xs (x ∷ ys),
          length-append xs ys,
        );
        known =
            rw (lib.adds ArpItem t.items x)
              (find-somewhere (matches (take 4 pkt.spa)) xs x ys (ground arith));
      }

  -- Where the table and the pool have any item at all, a reply is learned within two rounds: the
  -- items and what the pool has left stay as many as they are together, and a search for the
  -- sender's address finds an item with that address.
  pub learn-IsLearned :
      (clock : Clock) (t : ArpTable) (pkt : ArpPacket)
      → 0 < capacity t
      → (t' : ArpTable) × (learn lib clock t pkt ≡ some t') × IsLearned t t' pkt
  unfolding learn learn_loop
  learn-IsLearned clock t pkt some_items =
      let roomy = make_room clock t.items in
      let t1 : ArpTable = record t {
        items = roomy;
        spare = t.spare + (length t.items - length roomy);
      } in
      elim (Bool-cases (t.spare == 0)) [
        | inr spare ↦
            (let added = add_item-IsLearned t pkt (ground arith) in
              (add_item lib t pkt, rw spare refl, added))
        | inl full ↦
            (let less = make_room-less clock t.items (ground arith) in
              let added = add_item-IsLearned t1 pkt (omega arith) in
              let freed : t1.spare == 0 ≡ false = ground arith in
              (
                add_item lib t1 pkt,
                rw (full, freed) refl,
                record { same_capacity = added.same_capacity ∙ omega arith; known = added.known },
              ))
      ]
