-- ===== src/Sha256/Tests.antt =====
-- The digest of "abc" from the standard.
use pifire_c.Common.{◌≡◌, ◌<◌, length, arith, refl}
use pifire_c.Sha256.Padding.{length-padded}
use pifire_c.Sha256.Streaming.{update-append}
use pifire_c.Mode.{bytes}
use pifire_c.Text.{Bytes}
use pifire_c.Sha256.{
  big_endian, init, update, final, block, close, fill, pad, padded, words_of, expand, round, rounds,
}

abbrev abc_digest : Bytes
abc_digest =
    big_endian 32 84342368487090800366523834928142263660104883695016514377462985829716817089965

abc_test : final (update init (bytes "abc")) ≡ abc_digest
unfolding final update init block close fill pad padded words_of expand round rounds
abc_test = refl

update-append_example :
    (length (update init (bytes "ab")).buf < 64)
    × (update (update init (bytes "ab")) (bytes "c") ≡ update init (bytes "abc"))
unfolding init
update-append_example = update-append init (bytes "ab") (bytes "c") (omega arith)

length-padded_example : length (padded (update init (bytes "abc"))).buf ≡ 0
unfolding init update fill close
length-padded_example = length-padded (update init (bytes "abc")) (omega arith)
