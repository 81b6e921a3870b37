-- ===== src/Image/Tests.antt =====
-- Runs on a staged image of one byte.
use sg2002_kraken.Base.{
  ℕ, ◌+◌, ◌<◌, ◌≡◌, ◌≢◌, ◌↔◌, refl, arith, if◌then◌else◌, ◌==◌, some, List, [], ◌∷◌, get_or,
}
use sg2002_kraken.Kraken.Structs.{Footer}
use sg2002_kraken.Memory.{Mem}
use sg2002_kraken.Image.{
  read_footer, sg2002_find_staged_image, sg2002_crc32, crc_from, crc_byte, crc_bits, crc_bit,
  sg2002_validate_staged_image,
}
use sg2002_kraken.Image.Candidate.{IsFooterAt}
use sg2002_kraken.Image.Find.{sg2002_find_staged_image_iff}
use sg2002_kraken.Image.Crc.{sg2002_crc32_one_byte}
use sg2002_kraken.Image.Stage.{
  IsValidated, sg2002_validate_staged_image_iff, staged_footer, staged_image_validates,
}

-- The payload 0, and the footer of a worker image.
abbrev bytes : List ℕ
bytes =
    0 ∷ 0x47 ∷ 0x54 ∷ 0x53 ∷ 0x4b ∷ 1 ∷ 0 ∷ 0 ∷ 0 ∷ 3 ∷ 0 ∷ 0 ∷ 0 ∷ 0 ∷ 0 ∷ 0 ∷ 0 ∷ 0 ∷ 0 ∷ 0x38
    ∷ 0x80 ∷ 0 ∷ 0 ∷ 0x38 ∷ 0x80 ∷ 1 ∷ 0 ∷ 0 ∷ 0 ∷ 0x8d ∷ 0xef ∷ 0x02 ∷ 0xd2 ∷ 0x72 ∷ 0x10 ∷ 0xfd
    ∷ 0x2d ∷ 0x44 ∷ 0x4e ∷ 0x45 ∷ 0x4b ∷ []

abbrev staged : Mem
staged x = get_or bytes x 0

abbrev worker_footer : Footer
worker_footer = staged_footer 0xd202ef8d 1 3 0x80380000 0x80380000

-- The check value of CRC-32, over the digits 1 to 9.
abbrev digits : Mem
digits x = 49 + x

crc_of_digits : sg2002_crc32 digits 0 9 ≡ 0xcbf43926
unfolding sg2002_crc32 crc_from crc_byte crc_bits crc_bit
crc_of_digits = refl

crc_of_payload : 0xd202ef8d ≡ sg2002_crc32 staged 0 1
unfolding sg2002_crc32 crc_from crc_byte crc_bits crc_bit
crc_of_payload = refl

footer_is_written : read_footer staged (0 + 1) ≡ worker_footer
unfolding read_footer staged_footer
footer_is_written = refl

staged_image_example :
    sg2002_validate_staged_image staged 0 41 3 0x80380000 0x80380000 ≡ some worker_footer
staged_image_example =
    staged_image_validates staged 0 1 41 0xd202ef8d 3 0x80380000 0x80380000 crc_of_payload
      (omega arith) (omega arith) (omega arith) (omega arith) footer_is_written
      (λ k g above at. absurd (omega (arith, at.inside)))

find_example :
    (sg2002_find_staged_image staged 0 41 ≡ some worker_footer)
    ↔ IsFooterAt staged 0 worker_footer.payload_size 41 worker_footer
      × ((k : ℕ) (g : Footer) → worker_footer.payload_size < k → ¬ IsFooterAt staged 0 k 41 g)
find_example = sg2002_find_staged_image_iff staged 0 41 worker_footer

validate_example :
    (sg2002_validate_staged_image staged 0 41 3 0 0 ≡ some worker_footer)
    ↔ IsValidated staged 0 41 3 0 0 worker_footer
validate_example = sg2002_validate_staged_image_iff staged 0 41 3 0 0 worker_footer

-- Two images that differ at address 2.
abbrev zeros : Mem
zeros x = 0

abbrev flipped : Mem
flipped x = if x == 2 then 128 else 0

crc_one_byte_example : sg2002_crc32 zeros 0 4 ≢ sg2002_crc32 flipped 0 4
crc_one_byte_example =
    sg2002_crc32_one_byte zeros flipped 0 4 2 (λ x. omega arith) (λ x. ground arith) (omega arith)
      (omega arith) (λ e. absurd (omega (arith, e))) (λ x ne. ground arith)
