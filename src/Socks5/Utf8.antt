-- ===== src/Socks5/Utf8.antt =====
-- `std::str::from_utf8`: whether bytes are the UTF-8 spelling of a text.
use warren_sdk_rs.Prelude.{
  ℕ, Bool, true, false, ◌&&◌, Option, none, some, List, [], ◌∷◌, ltb, leb, ◌==◌, if◌then◌else◌,
}

-- The ranges that the bytes after a first byte lie in; none for a byte that starts no character.
unfoldable pub continuations : ℕ → Option (List (ℕ × ℕ))
continuations b =
    let any : ℕ × ℕ = (0x80, 0xbf) in
    if ltb b 0x80
    then some []
    else if ltb b 0xc2
    then none
    else if ltb b 0xe0
    then some (any ∷ [])
    else if b == 0xe0
    then some ((0xa0, 0xbf) ∷ any ∷ [])
    else if b == 0xed
    then some ((0x80, 0x9f) ∷ any ∷ [])
    else if ltb b 0xf0
    then some (any ∷ any ∷ [])
    else if b == 0xf0
    then some ((0x90, 0xbf) ∷ any ∷ any ∷ [])
    else if ltb b 0xf4
    then some (any ∷ any ∷ any ∷ [])
    else if b == 0xf4
    then some ((0x80, 0x8f) ∷ any ∷ any ∷ [])
    else none

-- The ranges are those that the bytes still to come in a character lie in.
unfoldable pub utf8_after : List (ℕ × ℕ) → List ℕ → Bool
unfolding continuations
utf8_after [] [] = true
utf8_after (r ∷ ranges) [] = false
utf8_after [] (b ∷ bytes) = elim (continuations b) [
  | none ↦ false
  | some ranges ↦ utf8_after ranges bytes
]
utf8_after ((lo, hi) ∷ ranges) (b ∷ bytes) =
    let rest = utf8_after ranges bytes in if leb lo b && leb b hi then rest else false

unfoldable pub is_utf8 : List ℕ → Bool
is_utf8 bytes = utf8_after [] bytes
