-- ===== src/Ip/Fragments.antt =====
-- The offsets of the fragments that `ip_hl_send` hands down.
use dts_net.Base.{
  ℕ, ◌+◌, ◌/◌, ◌%◌, ◌^◌, ◌≡◌, ◌≤◌, refl, arith, sym, ap, ◌∙◌, true, List, [], ◌∷◌, ◌++◌,
}
use dts_net.Base.{map, append-nil, append_assoc, ltb, false, not, ap₂, length}
use dts_net.Dblk.{Node, Chain, dblk_size, dblk_node_concat}
use dts_net.Ip.Header.{IpHeader, ip_header_pack, header_size}
use dts_net.Ip.Send.{Lower, hand_down, is_nil, mk_flags, pack_header, send_fragments}

-- The offsets of the datagrams handed down so far.
abbrev pub offsets : Lower → List ℕ
offsets low = map (λ d. d.0.fragment_offset) low.datagrams

-- Where a fragment behind one of `size` bytes at `offset` goes: the header of 20 bytes is counted.
abbrev pub next_offset : ℕ → ℕ → ℕ
next_offset offset size = (offset + (size % 2 ^ 16 + 20) % 2 ^ 16 / 8) % 2 ^ 13

abbrev pub offsets_from : ℕ → Chain → List ℕ
offsets_from o [] = []
offsets_from o (f ∷ fs) = o ∷ offsets_from (next_offset o (dblk_size (f ∷ []))) fs

pub record IsPacked (hdr : IpHeader) (raw : Node) (packed : IpHeader × Node) : Type 0 where
  pub same_offset : packed.0.fragment_offset ≡ hdr.fragment_offset
  pub longer : packed.0.total_length ≡ (hdr.total_length + 20) % 2 ^ 16
  pub no_options : packed.0.option_size ≡ 0
  pub header_alone : packed.1.size ≡ 20

pack_header-IsPacked :
    (hdr : IpHeader) (raw : Node)
    → hdr.option_size ≡ 0
    → 20 ≤ raw.size
    → IsPacked hdr raw (pack_header hdr raw)
unfolding pack_header ip_header_pack header_size
pack_header-IsPacked hdr raw no_options room =
    let fits : ltb raw.size (hdr.option_size + 20) ≡ false = ground arith in
    rw (fits, no_options)
      (record { same_offset = refl; longer = refl; no_options = refl; header_alone = refl })

map-snoc :
    (ds : List (IpHeader × Chain)) (d : IpHeader × Chain)
    → map (λ d. d.0.fragment_offset) (ds ++ (d ∷ []))
      ≡ map (λ d. d.0.fragment_offset) ds ++ (d.0.fragment_offset ∷ [])
map-snoc [] d = refl
map-snoc (x ∷ ds) d = ap (◌∷◌ x.0.fragment_offset) (map-snoc ds d)

-- Where `ll_send` takes every datagram and there are no IP options, a datagram is handed down for
-- each fragment, in order. The first has the offset that the header came with, and each other one
-- the offset before it plus an eighth of the size of the fragment before it and its header of 20
-- bytes.
pub send_fragments-offsets :
    (fs : Chain) (hdr : IpHeader) (raw : Node) (low : Lower)
    → hdr.option_size ≡ 0
    → 20 ≤ raw.size
    → ((n : ℕ) → low.accept n ≡ true)
    → (offsets (send_fragments hdr raw fs low).0
        ≡ offsets low ++ offsets_from hdr.fragment_offset fs)
      × ((send_fragments hdr raw fs low).1 ≡ true)
unfolding send_fragments
send_fragments-offsets [] hdr raw low no_options room takes = (sym (append-nil _), refl)
send_fragments-offsets (f ∷ fs) hdr raw low no_options room takes =
    let h1 : IpHeader = record hdr {
      total_length = dblk_size (f ∷ []) % 2 ^ 16;
      flags = mk_flags (not (is_nil fs));
    } in
    let p = pack_header h1 raw in
    let ok = pack_header-IsPacked h1 raw no_options room in
    let low1 = (hand_down low p.0 (dblk_node_concat p.1 (f ∷ []))).0 in
    let o = next_offset hdr.fragment_offset (dblk_size (f ∷ [])) in
    let h3 : IpHeader = record p.0 {
      fragment_offset = (p.0.fragment_offset + p.0.total_length / 8) % 2 ^ 13;
    } in
    let moved : h3.fragment_offset ≡ o = rw (ok.same_offset, ok.longer) refl in
    let (rest, done) =
      send_fragments-offsets fs h3 (record p.1 { more = true }) low1 ok.no_options
        (omega (arith, ok.header_alone)) takes in
    let first : offsets low1 ≡ offsets low ++ (hdr.fragment_offset ∷ []) =
      map-snoc low.datagrams _ ∙ ap (λ x. offsets low ++ (x ∷ [])) ok.same_offset in
    let joined =
      rest
      ∙ (ap₂ (λ xs x. xs ++ offsets_from x fs) first moved
          ∙ append_assoc (offsets low) (hdr.fragment_offset ∷ []) (offsets_from o fs)) in
    rw (takes (length low.datagrams)) (joined, done)
