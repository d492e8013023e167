-- ===== src/Dhcp/RoundTrip.antt =====
-- `dhcp_message_unpack` of what `dhcp_message_pack` made, in dts_net_dhcp.c.
use dts_net.Base.{ℕ, ◌+◌, ◌-◌, ◌%◌, ◌^◌, ◌≡◌, ◌≤◌, ◌<◌, refl, arith, ap, sym, ◌∙◌}
use dts_net.Base.{Bool, true, false, ltb, [], ◌++◌, length, take, drop, append_assoc}
use dts_net.Base.{drop-append_ge, take-append_ge, take_all, drop-drop, take-append_exact}
use dts_net.Base.{drop-append_exact}
use dts_net.Endian.{Buffer}
use dts_net.Bytes.{copy_at, slice}
use dts_net.Dhcp.Defs.{
  DhcpMessage, dhcp_message_pack, dhcp_message_unpack, write_numbers, write_text,
}
use dts_net.Dhcp.Numbers.{
  AreNarrow, with_numbers_of, number_bytes, write_numbers-number_bytes, read_numbers-number_bytes,
}

-- A message whose texts have their sizes, with at least 5 bytes of options, and memory for its bytes.
pub record IsComplete (m : DhcpMessage) : Type 0 where
  pub chaddr_size : length m.chaddr ≡ 16
  pub sname_size : length m.sname ≡ 64
  pub file_size : length m.file ≡ 128
  pub some_options : 5 ≤ m.option_size
  pub options_there : m.option_size ≤ length m.option
  pub room : 236 + m.option_size ≤ m.raw_data_size
  pub size_fits : m.raw_data_size < 2 ^ 64
  pub memory : m.raw_data_size ≤ length m.raw_data

-- A copy behind a part of the memory leaves that part alone.
copy_at-append :
    (a p n : ℕ) (xs ys src : Buffer)
    → length xs ≡ a
    → copy_at (xs ++ ys) (a + p) src n ≡ xs ++ copy_at ys p src n
copy_at-append a p n xs ys src h =
    let e : a + p + n ≡ a + (p + n) = omega arith in
    rw (e, take-append_ge a p xs ys h, drop-append_ge a (p + n) xs ys h)
      (append_assoc xs (take p ys) (take n src ++ drop (p + n) ys))

copy_at-start : (n : ℕ) (ys src : Buffer) → copy_at ys 0 src n ≡ take n src ++ drop n ys
copy_at-start n ys src = let e : 0 + n ≡ n = omega arith in rw e refl

copy_at-whole : (n : ℕ) (ys src : Buffer) → length src ≡ n → copy_at ys 0 src n ≡ src ++ drop n ys
copy_at-whole n ys src h = copy_at-start n ys src ∙ rw (take_all n src (omega arith)) refl

-- The options, and what was behind them in the memory.
abbrev pub options_and_rest : DhcpMessage → Buffer
options_and_rest m = take m.option_size m.option ++ drop (236 + m.option_size) m.raw_data

abbrev pub message_bytes : DhcpMessage → Buffer
message_bytes m = number_bytes m (m.chaddr ++ (m.sname ++ (m.file ++ options_and_rest m)))

module _ (m : DhcpMessage) (whole : IsComplete m) where
  texts :
      (b : Buffer)
      → copy_at
          (copy_at (copy_at (copy_at b 0 m.chaddr 16) 16 m.sname 64) 80 m.file 128)
          208
          m.option
          m.option_size
        ≡ m.chaddr
          ++ (m.sname ++ (m.file ++ (take m.option_size m.option ++ drop (208 + m.option_size) b)))
  texts b =
      let rest = drop 128 (drop 64 (drop 16 b)) in
      let dropped : drop m.option_size rest ≡ drop (208 + m.option_size) b =
        ap (drop m.option_size) (ap (drop 128) (drop-drop 16 64 b) ∙ drop-drop 80 128 b)
        ∙ drop-drop 208 m.option_size b in
      rw
        (
          copy_at-whole 16 b m.chaddr whole.chaddr_size,
          copy_at-append 16 0 64 m.chaddr (drop 16 b) m.sname whole.chaddr_size,
          copy_at-whole 64 (drop 16 b) m.sname whole.sname_size,
          copy_at-append 16 64 128 m.chaddr (m.sname ++ drop 64 (drop 16 b)) m.file
              whole.chaddr_size,
          copy_at-append 64 0 128 m.sname (drop 64 (drop 16 b)) m.file whole.sname_size,
          copy_at-whole 128 (drop 64 (drop 16 b)) m.file whole.file_size,
          copy_at-append 16 192 m.option_size m.chaddr (m.sname ++ (m.file ++ rest)) m.option
              whole.chaddr_size,
          copy_at-append 64 128 m.option_size m.sname (m.file ++ rest) m.option whole.sname_size,
          copy_at-append 128 0 m.option_size m.file rest m.option whole.file_size,
          copy_at-start m.option_size rest m.option,
          sym dropped,
        )
        refl

  written : write_text m (write_numbers m m.raw_data) ≡ message_bytes m
  unfolding write_text
  written =
      let room : 28 ≤ length m.raw_data = omega (arith, whole.memory, whole.room) in
      let b = drop 28 m.raw_data in
      let before = copy_at (copy_at (copy_at b 0 m.chaddr 16) 16 m.sname 64) 80 m.file 128 in
      let e : 28 + (208 + m.option_size) ≡ 236 + m.option_size = omega arith in
      let dropped : drop (208 + m.option_size) b ≡ drop (236 + m.option_size) m.raw_data =
        drop-drop 28 (208 + m.option_size) m.raw_data ∙ ap (λ n. drop n m.raw_data) e in
      ap (write_text m) (write_numbers-number_bytes m m.raw_data room)
      ∙ (copy_at-append 28 208 m.option_size (number_bytes m []) before m.option refl
          ∙ ap (number_bytes m) (rw (sym dropped) (texts b)))

  abbrev after_numbers : Buffer
  after_numbers = m.chaddr ++ (m.sname ++ (m.file ++ options_and_rest m))

  chaddr_back : slice (message_bytes m) 28 16 ≡ m.chaddr
  chaddr_back =
      take-append_exact 16 m.chaddr (m.sname ++ (m.file ++ options_and_rest m)) whole.chaddr_size

  sname_back : slice (message_bytes m) 44 64 ≡ m.sname
  sname_back =
      let rest = m.file ++ options_and_rest m in
      ap (take 64) (drop-append_exact 16 m.chaddr (m.sname ++ rest) whole.chaddr_size)
      ∙ take-append_exact 64 m.sname rest whole.sname_size

  past_sname : (n : ℕ) → drop (80 + n) after_numbers ≡ drop n (m.file ++ options_and_rest m)
  past_sname n =
      let rest = m.file ++ options_and_rest m in
      let e : 80 + n ≡ 16 + (64 + n) = omega arith in
      ap (λ k. drop k after_numbers) e
      ∙ (drop-append_ge 16 (64 + n) m.chaddr (m.sname ++ rest) whole.chaddr_size
          ∙ drop-append_ge 64 n m.sname rest whole.sname_size)

  file_back : slice (message_bytes m) 108 128 ≡ m.file
  file_back =
      ap (take 128) (past_sname 0)
      ∙ take-append_exact 128 m.file (options_and_rest m) whole.file_size

  options_back : drop 236 (message_bytes m) ≡ options_and_rest m
  options_back = past_sname 128 ∙ drop-append_exact 128 m.file (options_and_rest m) whole.file_size

  packs :
      dhcp_message_pack m
      ≡ (record m { raw_data = message_bytes m; raw_data_size = 236 + m.option_size }, true)
  unfolding dhcp_message_pack
  packs =
      let fits : ltb m.raw_data_size ((236 + m.option_size) % 2 ^ 64) ≡ false =
        ground (arith, whole.room, whole.size_fits) in
      rw (fits, written) refl

-- What is read of the bytes of `m`, over the fields of `other`.
abbrev pub read_of : DhcpMessage → DhcpMessage → DhcpMessage
read_of m other = record (with_numbers_of m other) {
  chaddr = m.chaddr;
  sname = m.sname;
  file = m.file;
  option = options_and_rest m;
  option_size = m.option_size;
  raw_data = message_bytes m;
  raw_data_size = 236 + m.option_size;
}

-- The bytes of `sent` as they arrive in `other`.
abbrev pub arrived : DhcpMessage → DhcpMessage → DhcpMessage
arrived sent other = record other { raw_data = sent.raw_data; raw_data_size = sent.raw_data_size }

-- A message is packed where its texts have their sizes, it has at least 5 bytes of options and its
-- memory has room, and `dhcp_message_unpack` accepts the bytes. It reads every number that fits in 32
-- bits, every text and the size of the options as they were, and the options with what the memory
-- held behind them; but `secs` and `flags` are read as 0, whatever they were.
pub dhcp_message_unpack-dhcp_message_pack :
    (m other : DhcpMessage)
    → AreNarrow m
    → IsComplete m
    → let (sent, packed) = dhcp_message_pack m in
      (packed ≡ true) × (dhcp_message_unpack (arrived sent other) ≡ (read_of m other, true))
unfolding dhcp_message_unpack
dhcp_message_unpack-dhcp_message_pack m other narrow whole =
    let long : ltb (236 + m.option_size) 241 ≡ false = ground (arith, whole.some_options) in
    let size : 236 + m.option_size - 236 ≡ m.option_size = omega arith in
    let there : DhcpMessage = record other {
      raw_data = message_bytes m;
      raw_data_size = 236 + m.option_size;
    } in
    let numbers = read_numbers-number_bytes m there (after_numbers m whole) narrow refl in
    let b = message_bytes m in
    let texts_of : DhcpMessage → DhcpMessage × Bool = λ d. (
      record d {
        chaddr = slice b 28 16;
        sname = slice b 44 64;
        file = slice b 108 128;
        option = drop 236 b;
        option_size = 236 + m.option_size - 236;
      },
      true,
    ) in
    rw (packs m whole, long)
      (
        refl,
        ap texts_of numbers
            ∙ (rw
                (
                  size,
                  chaddr_back m whole,
                  sname_back m whole,
                  file_back m whole,
                  options_back m whole,
                )
                refl),
      )
