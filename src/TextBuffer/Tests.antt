-- ===== src/TextBuffer/Tests.antt =====
-- Seven characters and a newline on lines of four characters.
use rust_os.Prelude.{ℕ, ◌≡◌, List, [], ◌∷◌, map, arith, length, take, ret}
use rust_os.RingBuffer.{collect}
use rust_os.TextBuffer.{TextBuffer, new, write_str}
use rust_os.TextBuffer.Screen.{text, padded, current, write_str-new}

abbrev bytes : List ℕ
bytes = 49 ∷ 50 ∷ 51 ∷ 52 ∷ 53 ∷ 54 ∷ 55 ∷ 10 ∷ []

write_str-new_example :
    (t : TextBuffer) × (write_str 4 (new 5) bytes ≡ ret t)
    × (collect 6 t.buffer 0 ≡ ret (take 5 (map (padded 4) (text 4 [] bytes))))
    × (t.cursor ≡ length (current (text 4 [] bytes)))
write_str-new_example = write_str-new 5 4 bytes (omega arith) (omega arith)
