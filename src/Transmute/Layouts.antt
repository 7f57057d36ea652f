-- ===== src/Transmute/Layouts.antt =====
-- The layouts of packed structures: little-endian words, one after the other, and arrays of them.
use rust_os.Prelude.{
  ℕ, zero, suc, ◌+◌, ◌*◌, ◌/◌, ◌%◌, ◌^◌, ◌<◌, ◌≡◌, refl, sym, ap, ap₂, ◌∙◌, Bool, true, false, ◌&&◌,
  List, [], ◌∷◌, ◌++◌, arith, ltb, ltb→lt, length, length-append, take, drop, take-append,
  drop-append,
}
use native.Mathlib.Nat.{pow-suc}
use rust_os.Transmute.{Layout}

unfoldable pub to_le_bytes : ℕ → ℕ → List ℕ
to_le_bytes zero n = []
to_le_bytes (suc width) n = n % 256 ∷ to_le_bytes width (n / 256)

unfoldable pub from_le_bytes : List ℕ → ℕ
from_le_bytes [] = 0
from_le_bytes (byte ∷ bytes) = byte + 256 * from_le_bytes bytes

pub length-to_le_bytes : (width n : ℕ) → length (to_le_bytes width n) ≡ width
unfolding to_le_bytes
length-to_le_bytes zero n = refl
length-to_le_bytes (suc width) n = ap suc (length-to_le_bytes width (n / 256))

pub from_le_bytes-to_le_bytes :
    (width n : ℕ) → n < 256 ^ width → from_le_bytes (to_le_bytes width n) ≡ n
unfolding to_le_bytes from_le_bytes
from_le_bytes-to_le_bytes zero n h = omega arith
from_le_bytes-to_le_bytes (suc width) n h =
    let rest = from_le_bytes-to_le_bytes width (n / 256) (omega (arith, pow-suc 256 width)) in
    rw rest (omega arith)

-- A word of so many bytes, which is aligned to its size.
unfoldable pub word : ℕ → Layout ℕ
word width = record {
  size_of = width;
  align_of = width;
  is_value = λ n. ltb n (256 ^ width);
  encode = to_le_bytes width;
  decode = from_le_bytes;
  length-encode = λ n _. length-to_le_bytes width n;
  decode-encode = λ n h. from_le_bytes-to_le_bytes width n (ltb→lt n (256 ^ width) h);
}

pub and_both : {a b : Bool} → (a && b) ≡ true → (a ≡ true) × (b ≡ true)
and_both {a = true} {b = true} h = (refl, refl)
and_both {a = true} {b = false} h = cc
and_both {a = false} h = cc

-- A field and the fields after it, packed.
infixr 4 ◌⊗◌ ◌&◌ ◌⊕◌
pub data ◌⊗◌ (A B : Type 0) : Type 0 where
  ◌&◌ : A → B → A ⊗ B

module _ {A B : Type 0} (first : Layout A) (rest : Layout B) where
  abbrev fields_value : A ⊗ B → Bool
  fields_value (a & b) = first.is_value a && rest.is_value b

  abbrev fields_encode : A ⊗ B → List ℕ
  fields_encode (a & b) = first.encode a ++ rest.encode b

  pub length-fields_encode :
      (t : A ⊗ B) → fields_value t ≡ true → length (fields_encode t) ≡ first.size_of + rest.size_of
  length-fields_encode (a & b) h =
      let (p, q) = and_both h in
      let left = first.length-encode a p in
      let right = rest.length-encode b q in
      length-append (first.encode a) (rest.encode b) ∙ rw (left, right)

  abbrev fields_decode : List ℕ → A ⊗ B
  fields_decode bytes =
      first.decode (take first.size_of bytes) & rest.decode (drop first.size_of bytes)

  pub fields_decode-encode :
      (t : A ⊗ B) → fields_value t ≡ true → fields_decode (fields_encode t) ≡ t
  fields_decode-encode (a & b) h =
      let (p, q) = and_both h in
      let l = first.encode a in
      let r = rest.encode b in
      let size : first.size_of ≡ length l = sym (first.length-encode a p) in
      let left : first.decode (take first.size_of (l ++ r)) ≡ a =
        ap (λ (n : ℕ). first.decode (take n (l ++ r))) size
        ∙ ap first.decode (take-append l r)
        ∙ first.decode-encode a p in
      let right : rest.decode (drop first.size_of (l ++ r)) ≡ b =
        ap (λ (n : ℕ). rest.decode (drop n (l ++ r))) size
        ∙ ap rest.decode (drop-append l r)
        ∙ rest.decode-encode b q in
      ap₂ (λ (x : A) (y : B). x & y) left right

unfoldable pub ◌⊕◌ : {A B : Type 0} → Layout A → Layout B → Layout (A ⊗ B)
first ⊕ rest = record {
  size_of = first.size_of + rest.size_of;
  align_of = 1;
  is_value = fields_value first rest;
  encode = fields_encode first rest;
  decode = fields_decode first rest;
  length-encode = length-fields_encode first rest;
  decode-encode = fields_decode-encode first rest;
}

module _ {A : Type 0} (item : Layout A) where
  abbrev all_values : ℕ → List A → Bool
  all_values zero [] = true
  all_values zero (x ∷ xs) = false
  all_values (suc n) [] = false
  all_values (suc n) (x ∷ xs) = item.is_value x && all_values n xs

  abbrev encode_all : List A → List ℕ
  encode_all [] = []
  encode_all (x ∷ xs) = item.encode x ++ encode_all xs

  abbrev decode_all : ℕ → List ℕ → List A
  decode_all zero bytes = []
  decode_all (suc n) bytes =
      item.decode (take item.size_of bytes) ∷ decode_all n (drop item.size_of bytes)

  pub length-encode_all :
      (n : ℕ) (xs : List A) → all_values n xs ≡ true → length (encode_all xs) ≡ n * item.size_of
  length-encode_all zero [] h = omega arith
  length-encode_all zero (x ∷ xs) h = cc
  length-encode_all (suc n) [] h = cc
  length-encode_all (suc n) (x ∷ xs) h =
      let (p, q) = and_both h in
      let rest = length-encode_all n xs q in
      let one = item.length-encode x p in
      let both = length-append (item.encode x) (encode_all xs) in grind arith

  pub decode_all-encode_all :
      (n : ℕ) (xs : List A) → all_values n xs ≡ true → decode_all n (encode_all xs) ≡ xs
  decode_all-encode_all zero [] h = refl
  decode_all-encode_all zero (x ∷ xs) h = cc
  decode_all-encode_all (suc n) [] h = cc
  decode_all-encode_all (suc n) (x ∷ xs) h =
      let (p, q) = and_both h in
      let a = item.encode x in
      let b = encode_all xs in
      let size : item.size_of ≡ length a = sym (item.length-encode x p) in
      let left : item.decode (take item.size_of (a ++ b)) ≡ x =
        ap (λ (k : ℕ). item.decode (take k (a ++ b))) size
        ∙ ap item.decode (take-append a b)
        ∙ item.decode-encode x p in
      let right : decode_all n (drop item.size_of (a ++ b)) ≡ xs =
        ap (λ (k : ℕ). decode_all n (drop k (a ++ b))) size
        ∙ ap (decode_all n) (drop-append a b)
        ∙ decode_all-encode_all n xs q in
      ap₂ (λ (y : A) (ys : List A). y ∷ ys) left right

  unfoldable pub array : ℕ → Layout (List A)
  array n = record {
    size_of = n * item.size_of;
    align_of = item.align_of;
    is_value = all_values n;
    encode = encode_all;
    decode = decode_all n;
    length-encode = length-encode_all n;
    decode-encode = decode_all-encode_all n;
  }

-- A structure by the tuple of its fields.
unfoldable pub as_struct :
    {A : Type 0} {B : Type 0}
    → Layout A
    → (f : A → B) (g : B → A) → ((b : B) → f (g b) ≡ b)
    → Layout B
as_struct layout f g same = record {
  size_of = layout.size_of;
  align_of = layout.align_of;
  is_value = λ b. layout.is_value (g b);
  encode = λ b. layout.encode (g b);
  decode = λ bytes. f (layout.decode bytes);
  length-encode = λ b h. layout.length-encode (g b) h;
  decode-encode = λ b h. ap f (layout.decode-encode (g b) h) ∙ same b;
}
