-- ===== src/Tests/Checksum.antt =====
-- packages/mirage-platform/runtime/kernel/checksum_stubs.c on small messages.
use mirage_kfreebsd.Base.{
  ℕ, ◌+◌, ◌-◌, ◌/◌, ◌%◌, ◌≡◌, refl, arith, List, [], ◌∷◌, ◌++◌, ok, length, take, IsBytes,
}
use mirage_kfreebsd.Checksum.{
  Buffer, sum_words, fold_carries, checksum_bigarray, ones_complement_checksum,
}
use mirage_kfreebsd.Checksum.Sum.{words, ones_sum}
use mirage_kfreebsd.Checksum.Laws.{checksum-ones_sum, checksum_self_verifies}

abbrev odd_message : List ℕ
odd_message = 0x45 ∷ 0x00 ∷ 0xFF ∷ 0xFF ∷ 0x12 ∷ []

abbrev even_message : List ℕ
even_message = 0x45 ∷ 0x00 ∷ 0xFF ∷ 0xFF ∷ []

abbrev buffers : List Buffer
buffers = record { bytes = even_message; dim = 4 } ∷ record { bytes = odd_message; dim = 5 } ∷ []

odd_message-IsBytes : IsBytes odd_message
odd_message-IsBytes = ground arith

even_message-IsBytes : IsBytes even_message
even_message-IsBytes = ground arith

odd_message_checksum : ones_complement_checksum odd_message 5 ≡ ok (0xFFFF - 0x5700)
unfolding ones_complement_checksum checksum_bigarray sum_words fold_carries
odd_message_checksum = refl

checksum-ones_sum_example :
    ones_complement_checksum odd_message 5 ≡ ok (65535 - ones_sum (words (take 5 odd_message)))
checksum-ones_sum_example =
    checksum-ones_sum odd_message 5 odd_message-IsBytes (omega arith) (omega arith) (omega arith)

even_message_checksum : ones_complement_checksum even_message 4 ≡ ok 0xBAFF
unfolding ones_complement_checksum checksum_bigarray sum_words fold_carries
even_message_checksum = refl

checksum_self_verifies_example :
    ones_complement_checksum
      (even_message ++ 0xBAFF / 256 ∷ 0xBAFF % 256 ∷ [])
      (length even_message + 2)
    ≡ ok 0
checksum_self_verifies_example =
    checksum_self_verifies even_message 0xBAFF even_message-IsBytes refl (omega arith)
      even_message_checksum
