-- ===== src/TextBuffer/Screen.antt =====
-- What the lines of the text buffer hold.
use rust_os.Prelude.{
  ℕ, zero, suc, ◌+◌, ◌-◌, ◌≤◌, ◌<◌, ◌≡◌, refl, sym, ap, subst, ◌∙◌, inl, inr, true, false, none,
  some, List, [], ◌∷◌, ◌++◌, map, arith, ltb, leb, ◌==◌, if◌then◌else◌, Bool-cases, length, set,
  length-append, length-set, take, replicate, length-replicate, ret, ◌>>=◌,
}
use rust_os.RingBuffer.{capacity, get_mut, reference, slot, collect}
use rust_os.RingBuffer.Refine.{
  Refines, capacity-new, new-Refines, push-Refines, get_mut_lem, collect_lem,
}
use rust_os.TextBuffer.{
  ColorChar, TextBuffer, white, blank, new, new_line, put_char, with_line, write_char, write_str,
}

-- The lines of a text, the latest first: a line ends at a newline, and when it is full.
abbrev pub put : ℕ → ColorChar → List (List ColorChar) → List (List ColorChar)
put width c [] = (c ∷ []) ∷ []
put width c (line ∷ lines) =
    if length line == width then (c ∷ []) ∷ line ∷ lines else (line ++ c ∷ []) ∷ lines

abbrev pub text : ℕ → List (List ColorChar) → List ℕ → List (List ColorChar)
text width lines [] = lines
text width lines (byte ∷ bytes) =
    let more = put width (record { char_byte = byte; color = white }) lines in
    text width (if byte == 10 then [] ∷ lines else more) bytes

-- A line on the screen.
abbrev pub padded : ℕ → List ColorChar → List ColorChar
padded width line = line ++ replicate (width - length line) blank

abbrev pub current : List (List ColorChar) → List ColorChar
current [] = []
current (line ∷ lines) = line

-- The buffer holds the latest lines, as many as it has room for.
record Shows (num width : ℕ) (t : TextBuffer) (lines : List (List ColorChar)) : Type 0 where
  room : capacity t.buffer ≡ num
  refines : Refines t.buffer (take num (map (padded width) lines))
  at : t.cursor ≡ length (current lines)
  inside : length (current lines) ≤ width

take-take : {A : Type 0} (k : ℕ) (l : List A) → take k (take (suc k) l) ≡ take k l
take-take zero l = refl
take-take (suc k) [] = refl
take-take (suc k) (x ∷ l) = ap (λ (r : List _). x ∷ r) (take-take k l)

-- A character put behind a line on the screen.
set-padded :
    (width : ℕ) (line : List ColorChar) (c : ColorChar)
    → length line < width
    → set (padded width line) (length line) c ≡ padded width (line ++ c ∷ [])
set-padded width line c h =
    let one : width - length line ≡ suc (width - (length line + 1)) = omega arith in
    let size : length (line ++ c ∷ []) ≡ length line + 1 = length-append line (c ∷ []) in
    rw (one, size) (set-append line blank c (replicate (width - (length line + 1)) blank))
  where
    set-append :
        (xs : List ColorChar) (y z : ColorChar) (ys : List ColorChar)
        → set (xs ++ y ∷ ys) (length xs) z ≡ (xs ++ z ∷ []) ++ ys
    set-append [] y z ys = refl
    set-append (x ∷ xs) y z ys = ap (λ (l : List ColorChar). x ∷ l) (set-append xs y z ys)

length-padded :
    (width : ℕ) (line : List ColorChar) → length line ≤ width → length (padded width line) ≡ width
length-padded width line h = omega (
  arith,
  length-append line (replicate (width - length line) blank),
  length-replicate {A = ColorChar} (width - length line) blank,
)

-- A buffer of at least one line.
module _ (k width : ℕ) (some_width : 0 < width) where
  new_line_lem :
      (t : TextBuffer) (lines : List (List ColorChar))
      → Shows (suc k) width t lines
      → (t' : TextBuffer) × (new_line width t ≡ ret t') × Shows (suc k) width t' ([] ∷ lines)
  unfolding new_line
  new_line_lem t lines s =
      let q = take (suc k) (map (padded width) lines) in
      let (r, e, size, v) = push-Refines t.buffer q (replicate width blank) s.refines in
      let cap : capacity t.buffer ≡ suc k = s.room in
      let whole : width - 0 ≡ width = omega arith in
      let same : take (capacity t.buffer) (replicate width blank ∷ q)
          ≡ padded width [] ∷ take k (map (padded width) lines) =
        rw (cap, whole)
          (ap (λ (l : List (List ColorChar)). replicate width blank ∷ l)
            (take-take k (map (padded width) lines))) in
      (
        record { buffer = r; cursor = 0 },
        rw e refl,
        record {
          room = size ∙ cap;
          refines = subst (Refines r) same v;
          at = refl;
          inside = omega arith;
        },
      )

  get_line :
      (t : TextBuffer) (line : List ColorChar) (lines : List (List ColorChar))
      → Shows (suc k) width t (line ∷ lines)
      → get_mut t.buffer 0 ≡ ret (reference t.buffer (slot t.buffer 0) (some (padded width line)))
  get_line t line lines s =
      (get_mut_lem t.buffer (padded width line ∷ take k (map (padded width) lines)) 0
        (padded width line) (padded width line) s.refines refl).0

  put_char_lem :
      (t : TextBuffer) (c : ColorChar) (line : List ColorChar) (lines : List (List ColorChar))
      → Shows (suc k) width t (line ∷ lines)
      → length line < width
      → (t' : TextBuffer) × (put_char width c t (
        padded width line,
        λ b. record t.buffer { elements = set t.buffer.elements (slot t.buffer 0) (some b) },
      )
          ≡ ret t')
        × Shows (suc k) width t' ((line ++ c ∷ []) ∷ lines)
  unfolding put_char
  put_char_lem t c line lines s room =
      let q = padded width line ∷ take k (map (padded width) lines) in
      let b = padded width (line ++ c ∷ []) in
      let r = record t.buffer { elements = set t.buffer.elements (slot t.buffer 0) (some b) } in
      let v : Refines r (b ∷ take k (map (padded width) lines)) =
        (get_mut_lem t.buffer q 0 (padded width line) b s.refines refl).1 in
      let size = length-padded width line (omega arith) in
      let t1 : ltb (length line) (length (padded width line)) ≡ true = ground (arith, size) in
      let changed = set-padded width line c room in
      let count : length (line ++ c ∷ []) ≡ length line + 1 = length-append line (c ∷ []) in
      (
        record { buffer = r; cursor = length line + 1 },
        rw (s.at, t1, changed) refl,
        record {
          room = length-set t.buffer.elements (slot t.buffer 0) (some b) ∙ s.room;
          refines = v;
          at = sym count;
          inside = rw count (omega arith);
        },
      )

  -- The character goes into the current line, which has room.
  write_here :
      (t : TextBuffer) (c : ColorChar) (line : List ColorChar) (lines : List (List ColorChar))
      → Shows (suc k) width t (line ∷ lines)
      → length line < width
      → (t' : TextBuffer) × ((get_mut t.buffer 0 >>= λ found. with_line width c t found) ≡ ret t')
        × Shows (suc k) width t' ((line ++ c ∷ []) ∷ lines)
  write_here t c line lines s room =
      let (t', e, s') = put_char_lem t c line lines s room in
      (t', rw (get_line t line lines s) e, s')

  no_line : (t : TextBuffer) → Shows (suc k) width t [] → get_mut t.buffer 0 ≡ ret none
  unfolding get_mut
  no_line t s =
      let cap = s.room in
      let positive : 0 < capacity t.buffer = omega arith in
      let test : leb (capacity t.buffer) 0 ≡ false = ground arith in
      rw (test, s.refines.slots 0 positive) refl

  -- One character.
  abbrev step : ColorChar → List (List ColorChar) → List (List ColorChar)
  step c lines = if c.char_byte == 10 then [] ∷ lines else put width c lines

  write_after_new_line :
      (t : TextBuffer) (c : ColorChar) (lines : List (List ColorChar))
      → Shows (suc k) width t lines
      → (t' : TextBuffer) × ((new_line width t >>= λ t1.
            get_mut t1.buffer 0 >>= λ found. with_line width c t1 found)
          ≡ ret t')
        × Shows (suc k) width t' ((c ∷ []) ∷ lines)
  write_after_new_line t c lines s =
      let (t1, e1, s1) = new_line_lem t lines s in
      let (t2, e2, s2) = write_here t1 c [] lines s1 some_width in (t2, rw e1 e2, s2)

  write_char_lem :
      (t : TextBuffer) (c : ColorChar) (lines : List (List ColorChar))
      → Shows (suc k) width t lines
      → (t' : TextBuffer) × (write_char width t c ≡ ret t') × Shows (suc k) width t' (step c lines)
  unfolding write_char
  write_char_lem t c lines s = elim (Bool-cases (c.char_byte == 10)) [
    | inl newline ↦
        let (t1, e1, s1) = new_line_lem t lines s in
        (t1, rw newline e1, subst (Shows (suc k) width t1) (rw newline refl) s1)
    | inr other ↦
        let (t1, e1, s1) = printed lines s in
        (t1, rw other e1, subst (Shows (suc k) width t1) (rw other refl) s1)
  ]
    where
      printed :
          (lines : List (List ColorChar))
          → Shows (suc k) width t lines
          → (t' : TextBuffer) × (((if t.cursor == width then new_line width t else ret t) >>= λ t1.
                get_mut t1.buffer 0 >>= λ found. with_line width c t1 found)
              ≡ ret t')
            × Shows (suc k) width t' (put width c lines)
      printed [] s =
          let test : (t.cursor == width) ≡ false = ground (arith, s.at, some_width) in
          let (t1, e1, s1) = new_line_lem t [] s in
          let (t2, e2, s2) = put_char_lem t1 c [] [] s1 some_width in
          (t2, rw (test, no_line t s, e1, get_line t1 [] [] s1) e2, s2)
      printed (line ∷ lines) s = elim (Bool-cases (length line == width)) [
        | inl full ↦
            let (t1, e1, s1) = write_after_new_line t c (line ∷ lines) s in
            let test : (t.cursor == width) ≡ true = ground (arith, s.at, full) in
            (t1, rw test e1, subst (Shows (suc k) width t1) (rw full refl) s1)
        | inr room ↦
            let inside : length line < width = ground (arith, room, s.inside) in
            let (t1, e1, s1) = write_here t c line lines s inside in
            let test : (t.cursor == width) ≡ false = ground (arith, s.at, room) in
            (t1, rw test e1, subst (Shows (suc k) width t1) (rw room refl) s1)
      ]

  write_str_lem :
      (bytes : List ℕ) (t : TextBuffer) (lines : List (List ColorChar))
      → Shows (suc k) width t lines
      → (t' : TextBuffer) × (write_str width t bytes ≡ ret t')
        × Shows (suc k) width t' (text width lines bytes)
  unfolding write_str
  write_str_lem [] t lines s = (t, refl, s)
  write_str_lem (byte ∷ bytes) t lines s =
      let c : ColorChar = record { char_byte = byte; color = white } in
      let (t1, e1, s1) = write_char_lem t c lines s in
      let (t2, e2, s2) = write_str_lem bytes t1 (step c lines) s1 in (t2, rw e1 e2, s2)

-- Writing a string into a new buffer of at least one line and one column never panics. The ring then
-- holds the latest lines of the text, as many as it has room for, the latest first, each filled up
-- with blanks, and the cursor stands behind the last character of the latest line.
pub write_str-new :
    (num width : ℕ) (bytes : List ℕ)
    → 0 < num
    → 0 < width
    → (t : TextBuffer) × (write_str width (new num) bytes ≡ ret t)
      × (collect (suc num) t.buffer 0 ≡ ret (take num (map (padded width) (text width [] bytes))))
      × (t.cursor ≡ length (current (text width [] bytes)))
unfolding new
write_str-new zero width bytes some_lines some_width = absurd (omega arith)
write_str-new (suc k) width bytes some_lines some_width =
    let empty : Shows (suc k) width (new (suc k)) [] = record {
      room = capacity-new (List ColorChar) (suc k);
      refines = new-Refines (suc k) (omega arith);
      at = refl;
      inside = omega arith;
    } in
    let (t, e, s) = write_str_lem k width some_width bytes (new (suc k)) [] empty in
    let q = take (suc k) (map (padded width) (text width [] bytes)) in
    let short : length q ≤ suc k = omega (arith, s.refines.short, s.room) in
    (t, e, collect_lem t.buffer q (suc k) 0 s.refines (omega arith), s.at)
