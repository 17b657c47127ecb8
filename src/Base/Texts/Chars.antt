-- ===== src/Base/Texts/Chars.antt =====
-- Character classes and case mapping.
use compliance_data_layer.Base.{ℕ, ◌+◌, ◌-◌, Bool, ◌&&◌, ◌||◌, List, map, leb, ◌==◌, if◌then◌else◌}

-- c between a and b
abbrev pub between : ℕ → ℕ → ℕ → Bool
between a b c = leb a c && leb c b

abbrev pub is_digit : ℕ → Bool
is_digit c = between b'0' b'9' c

abbrev pub is_upper : ℕ → Bool
is_upper c = between b'A' b'Z' c

abbrev pub is_lower : ℕ → Bool
is_lower c = between b'a' b'z' c

-- `\w`
abbrev pub is_word : ℕ → Bool
is_word c = is_digit c || (is_upper c || (is_lower c || c == b'_'))

-- `\s`, which is also what `trim` takes off: the white space and line ends of ECMAScript.
abbrev pub is_space : ℕ → Bool
is_space c =
    between 9 13 c
    || (c == 32
        || (c == 160
            || (c == 0x1680
                || (between 0x2000 0x200a c
                    || (c == 0x2028
                        || (c == 0x2029
                            || (c == 0x202f || (c == 0x205f || (c == 0x3000 || c == 0xfeff)))))))))

-- `toUpperCase` and `toLowerCase`, for a text that is then compared with ASCII texts: the letters of
-- ASCII, and the other single letters whose image is one (ı, ſ and the Kelvin sign). What else they
-- change has an image outside the tables that the program compares with, and stays as it is here.
unfoldable pub upper_char : ℕ → ℕ
upper_char c =
    if is_lower c then c - 32 else if c == 0x131 then b'I' else if c == 0x17f then b'S' else c

unfoldable pub lower_char : ℕ → ℕ
lower_char c = if is_upper c then c + 32 else if c == 0x212a then b'k' else c

unfoldable pub to_upper : List ℕ → List ℕ
unfolding upper_char
to_upper s = map upper_char s

unfoldable pub to_lower : List ℕ → List ℕ
unfolding lower_char
to_lower s = map lower_char s
