-- ===== src/Udp/Block.antt =====
-- The block that `_sendto` hands to `ip_hl_send`.
use dts_net.Base.{ℕ, ◌+◌, ◌%◌, ◌^◌, ◌≡◌, ◌<◌, refl, ap, ◌∙◌, arith, false, [], ◌++◌}
use dts_net.Base.{length, take, take_all, append-nil}
use dts_net.Endian.{Buffer, bw16}
use dts_net.Dblk.{Chain, Heap, dblk_node_init, dblk_node_concat, dblk_size, dblk_node_size}
use dts_net.Dblk.{dblk_delete}
use dts_net.Dblk.Contents.{contents, AreReal}
use dts_net.Ip.{Ip, IpAddr, is_nil}
use dts_net.Udp.Defs.{udp_pack, udp_header, block_to}
use dts_net.Udp.Receive.{sent_bytes}

-- The block that `_sendto` hands down: eight bytes of header, and the text.
module _ (ip : Ip) (dest : IpAddr) (port junk : ℕ) (text : Buffer)
    (short : length text < 1392) where
  abbrev block : Chain
  block = block_to ip dest port text (length text) junk

  pub contents-block_to : contents block ≡ sent_bytes ip.addr dest 17 junk 12435 port text
  unfolding udp_pack udp_header bw16 dblk_node_init dblk_node_concat
  contents-block_to =
      let whole : take (length text % 2 ^ 16) text ++ [] ≡ text =
        append-nil _ ∙ take_all (length text % 2 ^ 16) text (omega arith) in
      let head = sent_bytes ip.addr dest 17 junk 12435 port text in ap (λ t. take 8 head ++ t) whole

  pub is_nil-block_to : is_nil block ≡ false
  unfolding udp_pack dblk_node_concat
  is_nil-block_to = refl

  pub size-block_to : dblk_size block ≡ length text + 8
  unfolding udp_pack udp_header bw16 dblk_node_init dblk_node_concat dblk_size dblk_node_size
  size-block_to = omega arith

  pub block_to-AreReal : AreReal block
  unfolding udp_pack udp_header bw16 dblk_node_init dblk_node_concat
  block_to-AreReal = (refl, omega arith, (refl, omega arith, tt))

  pub delete-block_to : (heap : Heap) → dblk_delete block heap ≡ ([], heap)
  unfolding udp_pack dblk_node_init dblk_node_concat dblk_delete
  delete-block_to heap = refl
