-- ===== src/Checksum/Tests.antt =====
-- The checksum of concrete sums and buffers.
use dts_net.Base.{◌≡◌, ◌+◌, ◌%◌}
use dts_net.Checksum.Defs.{checksum_complete}
use dts_net.Checksum.Fold.{checksum_complete-closes}

-- The sum of the example in RFC 1071.
checksum_complete-closes_example :
    (checksum_complete 0x2ddf0 + 0xddf2 ≡ 65535)
    × ((0x2ddf0 + checksum_complete 0x2ddf0) % 65535 ≡ 0)
checksum_complete-closes_example = checksum_complete-closes 0x2ddf0
