-- ===== src/Shared/Strings/Utf8.antt =====
-- `String::from_utf8_lossy`: bytes that are not UTF-8 become U+FFFD, one for each longest piece that
-- begins a character.
use service_proxy.Shared.Text.{Text}
use service_proxy.Shared.{ℕ, ◌+◌, ◌-◌, ◌*◌, ltb, leb, ◌&&◌, List, [], ◌∷◌, if◌then◌else◌}

-- What the first byte of a character says: the character, or how many bytes follow, the range of the
-- next one, and the bits so far.
pub data Lead : Type 0 where
  single : ℕ → Lead
  more : (left lo hi bits : ℕ) → Lead
  invalid : Lead

unfoldable pub lead : ℕ → Lead
lead b =
    if ltb b 0x80
    then single b
    else if ltb b 0xc2
    then invalid
    else if ltb b 0xe0
    then more 1 0x80 0xbf (b - 0xc0)
    else if ltb b 0xf0
    then more 2 (if leb b 0xe0 then 0xa0 else 0x80)
        (if leb 0xed b && leb b 0xed then 0x9f else 0xbf) (b - 0xe0)
    else if ltb b 0xf5
    then more 3 (if leb b 0xf0 then 0x90 else 0x80) (if leb 0xf4 b then 0x8f else 0xbf) (b - 0xf0)
    else invalid

-- Decode after a lead, with the bytes that are left.
unfoldable pub decode : Lead → List ℕ → Text
unfolding lead
decode (single c) [] = c ∷ []
decode (single c) (b ∷ bs) = c ∷ decode (lead b) bs
decode invalid [] = 0xfffd ∷ []
decode invalid (b ∷ bs) = 0xfffd ∷ decode (lead b) bs
decode (more left lo hi bits) [] = 0xfffd ∷ []
decode (more left lo hi bits) (b ∷ bs) =
    if leb lo b && leb b hi
    then decode
        (if leb left 1
          then single (bits * 64 + (b - 0x80))
          else more (left - 1) 0x80 0xbf (bits * 64 + (b - 0x80)))
        bs
    else 0xfffd ∷ decode (lead b) bs

unfoldable pub from_utf8_lossy : List ℕ → Text
unfolding decode
from_utf8_lossy [] = []
from_utf8_lossy (b ∷ bs) = decode (lead b) bs
