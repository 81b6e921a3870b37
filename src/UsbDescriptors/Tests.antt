-- ===== src/UsbDescriptors/Tests.antt =====
-- The descriptors that the code gives.
use sg2002_kraken.Base.{
  ℕ, ◌+◌, ◌≡◌, refl, List, [], ◌∷◌, none, some, length, get_or, take, replicate,
}
use sg2002_kraken.Console.{codes}
use sg2002_kraken.UsbDescriptors.{s_desc_device, s_desc_config, tud_descriptor_string_cb}
use sg2002_kraken.UsbDescriptors.Blocks.{walk, total_length}
use sg2002_kraken.UsbDescriptors.Text.{read_string, tud_descriptor_string_cb_lem}

config_walk :
    walk 20 s_desc_config ≡ some (2 ∷ 0x0b ∷ 4 ∷ 0x24 ∷ 0x24 ∷ 0x24 ∷ 0x24 ∷ 5 ∷ 4 ∷ 5 ∷ 5 ∷ [])
unfolding walk s_desc_config
config_walk = refl

device_length : get_or s_desc_device 0 0 ≡ length s_desc_device
unfolding s_desc_device
device_length = refl

abbrev stale : List ℕ
stale = replicate 32 0x41

string_cb_example :
    read_string (tud_descriptor_string_cb 2 0x0409 stale) ≡ some (codes "Kraken USB Console")
string_cb_example = tud_descriptor_string_cb_lem 2 0x0409 stale refl

-- A host that takes as many bytes as the total length says gets a descriptor that is cut off.
total_length_short :
    (total_length s_desc_config + 8 ≡ length s_desc_config)
    × (walk 20 (take (total_length s_desc_config) s_desc_config) ≡ none)
unfolding walk s_desc_config
total_length_short = (refl, refl)
