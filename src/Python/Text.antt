-- ===== src/Python/Text.antt =====
-- `str.encode("utf-8")` and the validity test of `bytes.decode("utf-8")`, both strict.
use decent_wallet.Prelude.{
  Bool, Option, [], if◌then◌else◌, leb, ltb, none, some, true, ℕ, ◌%◌, ◌&&◌, ◌++◌, ◌+◌, ◌/◌, ◌∷◌,
}
use decent_wallet.Python.Value.{Bytes, Str}

-- One code point; a surrogate has no encoding.
abbrev pub encode_char : ℕ → Option Bytes
encode_char c =
    if ltb c 0x80
    then some (c ∷ [])
    else if ltb c 0x800
    then some ((0xC0 + c / 0x40) ∷ (0x80 + c % 0x40) ∷ [])
    else if leb 0xD800 c && ltb c 0xE000
    then none
    else if ltb c 0x10000
    then some ((0xE0 + c / 0x1000) ∷ (0x80 + c / 0x40 % 0x40) ∷ (0x80 + c % 0x40) ∷ [])
    else some (
        (0xF0 + c / 0x40000)
        ∷ (0x80 + c / 0x1000 % 0x40)
        ∷ (0x80 + c / 0x40 % 0x40)
        ∷ (0x80 + c % 0x40)
        ∷ [])

abbrev append_encoded : Option Bytes → Option Bytes → Option Bytes
append_encoded (some a) (some b) = some (a ++ b)
append_encoded _ _ = none

-- `none` is `UnicodeEncodeError`.
unfoldable pub encode : Str → Option Bytes
encode [] = some []
encode (c ∷ s) = append_encoded (encode_char c) (encode s)

abbrev is_tail : ℕ → Bool
is_tail b = leb 0x80 b && leb b 0xBF

-- The second byte after a lead byte: no overlong form, no surrogate, nothing past U+10FFFF.
abbrev second_ok : ℕ → ℕ → Bool
second_ok b c =
    leb (if leb 0xE0 b && leb b 0xE0 then 0xA0 else if leb 0xF0 b && leb b 0xF0 then 0x90 else 0x80)
      c
    && leb c (if leb 0xED b && leb b 0xED then 0x9F else if leb 0xF4 b then 0x8F else 0xBF)

-- Whether `decode("utf-8")` succeeds: the bytes are scanned one whole character at a time.
unfoldable pub is_utf8 : Bytes → Bool
is_utf8 [] = true
is_utf8 (a ∷ []) = ltb a 0x80
is_utf8 (a ∷ b ∷ []) =
    if ltb a 0x80 then is_utf8 (b ∷ []) else leb 0xC2 a && leb a 0xDF && is_tail b
is_utf8 (a ∷ b ∷ c ∷ []) =
    if ltb a 0x80
    then is_utf8 (b ∷ c ∷ [])
    else if leb 0xC2 a && leb a 0xDF
    then is_tail b && is_utf8 (c ∷ [])
    else leb 0xE0 a && leb a 0xEF && second_ok a b && is_tail c
is_utf8 (a ∷ b ∷ c ∷ d ∷ s) =
    let rest1 = is_utf8 (b ∷ c ∷ d ∷ s) in
    let rest2 = is_utf8 (c ∷ d ∷ s) in
    let rest3 = is_utf8 (d ∷ s) in
    let rest4 = is_utf8 s in
    if ltb a 0x80
    then rest1
    else if leb 0xC2 a && leb a 0xDF
    then is_tail b && rest2
    else if leb 0xE0 a && leb a 0xEF
    then second_ok a b && is_tail c && rest3
    else leb 0xF0 a && leb a 0xF4 && second_ok a b && is_tail c && is_tail d && rest4
