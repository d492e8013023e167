-- ===== src/Socket/AddressTests.antt =====
-- The address of a text.
use dts_net.Base.{ℕ, ◌≡◌, arith, some, [], ◌∷◌}
use dts_net.Endian.{Buffer}
use dts_net.Inet.{inet_addr}
use dts_net.Inet.Tests.{c_text}
use dts_net.Socket.Defs.{nacv}
use dts_net.Socket.Address.{nacv-inet_addr}

-- "10.0.0.27"
abbrev text : Buffer
text = b'1' ∷ b'0' ∷ b'.' ∷ b'0' ∷ b'.' ∷ b'0' ∷ b'.' ∷ b'2' ∷ b'7' ∷ 0 ∷ []

nacv-inet_addr_example :
    (a : ℕ) × (inet_addr c_text.atoi c_text.strchr (some text) ≡ some a)
    × ((nacv a).v4 ≡ 10 ∷ 0 ∷ 0 ∷ 27 ∷ [])
nacv-inet_addr_example =
    nacv-inet_addr c_text [] (b'1' ∷ b'0' ∷ []) (b'0' ∷ []) (b'0' ∷ []) (b'2' ∷ b'7' ∷ []) []
      (omega arith) (omega arith) (omega arith) (omega arith) (omega arith)
