-- ===== src/EtherArp/Tests.antt =====
-- The address table and the loop of sends on concrete lists and interfaces.
use dts_net.Base.{
  ◌≡◌, ◌⊎◌, refl, arith, sym, Bool, true, false, Option, none, some, List, [], ◌∷◌, ◌++◌, replicate,
}
use dts_net.Base.{append-nil, if◌then◌else◌}
use dts_net.Arp.{ArpPacket}
use dts_net.Dblk.{Chain, Heap, dblk_node_init}
use dts_net.Ether.{Wire}
use dts_net.EtherArp.Defs.{FindLib, Ether, ArpItem}
use dts_net.EtherArp.Table.{Clock, ArpTable, learn}
use dts_net.EtherArp.Send.{Sent, send_to_mac, broadcast_address}
use dts_net.EtherArp.Learn.{IsLearned, learn-IsLearned}
use dts_net.EtherArp.Deliver.{IsRefused, IsReckoned, send_to_mac-ends}

-- The first element that matches.
abbrev first_match : (A : Type 0) → (A → Bool) → List A → Option A
first_match A p [] = none
first_match A p (x ∷ q) = let rest = first_match A p q in if p x then some x else rest

-- A list library that puts elements at the end.
abbrev plain : FindLib
plain = record {
  list_add = λ A q x. q ++ (x ∷ []);
  list_find = first_match;
  before = λ A q. q;
  after = λ A q. [];
  splits = λ A q. sym (append-nil q);
  adds = λ A q x. refl;
  find_nil = λ A p. refl;
  find_cons = λ A p x q. refl;
}

abbrev item : ArpItem
item = record { ip = 10 ∷ 0 ∷ 0 ∷ 1 ∷ []; mac = 2 ∷ 0 ∷ 0 ∷ 0 ∷ 0 ∷ 1 ∷ []; timer = 0 }

-- One item, and nothing left in the pool.
abbrev full : ArpTable
full = record { items = item ∷ []; spare = 0; next_timer = 1 }

abbrev clock : Clock
clock = record { expired = λ i. false; remain = λ i. 100 }

abbrev answer : ArpPacket
answer = record {
  hrd = 1;
  pro = 0x0800;
  hln = 6;
  pln = 4;
  op = 2;
  sha = 2 ∷ 0 ∷ 0 ∷ 0 ∷ 0 ∷ 9 ∷ [];
  spa = 10 ∷ 0 ∷ 0 ∷ 9 ∷ [];
  tha = replicate 6 0;
  tpa = 10 ∷ 0 ∷ 0 ∷ 7 ∷ [];
  bytes = [];
  size = 28;
}

learn-IsLearned_example :
    (t' : ArpTable) × (learn plain clock full answer ≡ some t') × IsLearned plain full t' answer
learn-IsLearned_example = learn-IsLearned plain clock full answer (omega arith)

abbrev card : Ether
card = record { id = 1; mac_address = 2 ∷ 0 ∷ 0 ∷ 0 ∷ 0 ∷ 7 ∷ [] }

abbrev chain : Chain
chain = dblk_node_init (1 ∷ 2 ∷ []) 2 ∷ []

-- An interface that takes nothing.
abbrev dead : Wire
dead = record { frames = []; accept = λ n. false }

abbrev heap : Heap
heap = record { grant = λ n. true; asked = 0; live = 0; junk = 0 }

send_to_mac-ends_example :
    (r : Sent × Bool) × (send_to_mac card broadcast_address chain heap dead ≡ some r)
    × IsReckoned dead chain r.0.left r.0.wire
    × ((r.0.left ≡ []) ⊎ (IsRefused r.0.wire 3 ⊎ (r.1 ≡ false)))
send_to_mac-ends_example = send_to_mac-ends card broadcast_address chain heap dead
