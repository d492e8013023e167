-- ===== src/EtherArp/Defs.antt =====
-- `nif_t`, `ether_arp_ti_t`, and what the file uses of the list and the timer library (external).
use dts_net.Base.{ℕ, Bool, Option, none, some, List, [], ◌∷◌, ◌++◌, ◌≡◌, if◌then◌else◌}
use dts_net.Endian.{Buffer}
use dts_net.Ip.{Ip}

-- `list_add` puts an element somewhere into the list, `list_find` gives the first that matches.
pub record FindLib : Type 1 where
  pub list_add : (A : Type 0) → List A → A → List A
  pub list_find : (A : Type 0) → (A → Bool) → List A → Option A
  pub before : (A : Type 0) → List A → List A
  pub after : (A : Type 0) → List A → List A
  pub splits : (A : Type 0) (q : List A) → q ≡ before A q ++ after A q
  pub adds : (A : Type 0) (q : List A) (x : A) → list_add A q x ≡ before A q ++ (x ∷ after A q)
  pub find_nil : (A : Type 0) (p : A → Bool) → list_find A p [] ≡ none
  pub find_cons :
      (A : Type 0) (p : A → Bool) (x : A) (q : List A)
      → list_find A p (x ∷ q) ≡ (if p x then some x else list_find A p q)

-- An `ether_t`; `id` tells the objects apart, as their addresses do.
pub record Ether : Type 0 where
  pub id : ℕ
  pub mac_address : Buffer

pub record Nif : Type 0 where
  pub ip : Ip
  pub eth : Ether

-- An item of the address table; `timer` names its timer.
pub record ArpItem : Type 0 where
  pub ip : Buffer
  pub mac : Buffer
  pub timer : ℕ
