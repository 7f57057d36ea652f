-- ===== src/TextBuffer.antt =====
-- kernel/src/graphics/text_buffer.rs: the lines of the console in a ring buffer, and the cursor in the
-- latest line.
pub mod Screen
mod Tests
use rust_os.Prelude.{
  ℕ, ◌+◌, Option, none, some, List, [], ◌∷◌, ltb, ◌==◌, if◌then◌else◌, length, set, replicate, Exec,
  ret, ◌>>=◌, assert, expect, ◌>>◌,
}
use rust_os.RingBuffer
use rust_os.RingBuffer.{RingBuffer}

pub record ColorChar : Type 0 where
  pub char_byte : ℕ
  pub color : ℕ

pub record TextBuffer : Type 0 where
  pub buffer : RingBuffer (List ColorChar)
  pub cursor : ℕ

-- `ARGB32BIT_WHITE`.
abbrev pub white : ℕ
white = 4294967295

abbrev pub blank : ColorChar
blank = record { char_byte = 0; color = white }

-- The constant parameters `N` and `W` are the number of lines and their width.
unfoldable pub new : ℕ → TextBuffer
new lines = record { buffer = RingBuffer.new lines; cursor = 0 }

module _ (width : ℕ) where
  unfoldable pub new_line : TextBuffer → Exec TextBuffer
  new_line t = do
    buffer ← RingBuffer.push t.buffer (replicate width blank)
    ret (record { buffer = buffer; cursor = 0 })

  -- The character goes into the line at the cursor.
  unfoldable pub put_char :
      ColorChar
      → TextBuffer
      → List ColorChar × (List ColorChar → RingBuffer (List ColorChar))
      → Exec TextBuffer
  put_char c t (line, assign) = do
    assert (ltb t.cursor (length line))
    ret (record { buffer = assign (set line t.cursor c); cursor = t.cursor + 1 })

  -- The current line is made when there is none.
  abbrev pub with_line :
      ColorChar
      → TextBuffer
      → Option (List ColorChar × (List ColorChar → RingBuffer (List ColorChar)))
      → Exec TextBuffer
  with_line c t (some line) = put_char c t line
  with_line c t none = do
    t' ← new_line t
    found ← RingBuffer.get_mut t'.buffer 0
    line ← expect found
    put_char c t' line

  unfoldable pub write_char : TextBuffer → ColorChar → Exec TextBuffer
  write_char t c =
      let put = (if t.cursor == width then new_line t else ret t) >>= λ t'.
      RingBuffer.get_mut t'.buffer 0 >>= λ found. with_line c t' found in
      if c.char_byte == 10 then new_line t else put

  unfoldable pub write_str : TextBuffer → List ℕ → Exec TextBuffer
  write_str t [] = ret t
  write_str t (byte ∷ bytes) = do
    t' ← write_char t (record { char_byte = byte; color = white })
    write_str t' bytes
