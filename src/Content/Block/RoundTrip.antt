-- ===== src/Content/Block/RoundTrip.antt =====
-- A container that was written is read back.
use fipa_wasm.Base.{
  ℕ, zero, suc, ◌%◌, ◌^◌, ◌≤◌, ◌<◌, ◌≡◌, refl, ap, ◌∙◌, List, [], ◌∷◌, ◌++◌, arith, All, length,
  append_assoc,
}
use fipa_wasm.Base.Result.{ok}
use fipa_wasm.Content.Block.{
  read_block, read_length, read_content, Block, BlockFile, take, be16, be32, from_be, encode_block,
  encode_blocks, encode, read_blocks, read_count, read_body, read_version, read_file, decode, magic,
  format_version,
}

-- A block that the format can hold: a tag of four bytes, and a length that fits 32 bits.
abbrev pub IsFit : Block → Type 0
IsFit b = (length b.tag ≡ 4) × (length b.content < 2 ^ 32)

abbrev pub first : ℕ → List Block → List Block
first zero bs = []
first (suc n) [] = []
first (suc n) (b ∷ bs) = b ∷ first n bs

abbrev pub beyond : ℕ → List Block → List Block
beyond zero bs = bs
beyond (suc n) [] = []
beyond (suc n) (b ∷ bs) = beyond n bs

take-append :
    (n : ℕ) (front more : List ℕ) → length front ≡ n → take n (front ++ more) ≡ ok (front, more)
unfolding take
take-append zero [] more e = refl
take-append zero (b ∷ front) more e = absurd (omega arith)
take-append (suc n) [] more e = absurd (omega arith)
take-append (suc n) (b ∷ front) more e = rw (take-append n front more (omega arith)) refl

length-be32 : (n : ℕ) → length (be32 n) ≡ 4
unfolding be32
length-be32 n = refl

from_be-be32 : (n : ℕ) → n < 2 ^ 32 → from_be 0 (be32 n) ≡ n
unfolding be32
from_be-be32 n h = omega arith

from_be-be16 : (n : ℕ) → from_be 0 (be16 n) ≡ n % 2 ^ 16
unfolding be16
from_be-be16 n = omega arith

take-content :
    (content behind : List ℕ)
    → length content < 2 ^ 32
    → take (from_be 0 (be32 (length content))) (content ++ behind) ≡ ok (content, behind)
take-content content behind h =
    rw (from_be-be32 (length content) h) (take-append (length content) content behind refl)

block_shape :
    (b : Block) (bs : List Block) (more : List ℕ)
    → encode_blocks (b ∷ bs) ++ more
      ≡ b.tag ++ (be32 (length b.content) ++ (b.content ++ (encode_blocks bs ++ more)))
unfolding encode_blocks encode_block
block_shape b bs more = simp append_assoc

-- A block that was written is read, and what stands behind it is left.
read_block-encode_block :
    (b : Block) (bs : List Block) (more : List ℕ)
    → IsFit b
    → read_block (encode_blocks (b ∷ bs) ++ more) ≡ ok (b, encode_blocks bs ++ more)
unfolding read_block read_length read_content
read_block-encode_block b bs more fit =
    let behind = encode_blocks bs ++ more in
    rw (block_shape b bs more)
      (tagged (be32 (length b.content) ++ (b.content ++ behind)) ∙ sized behind ∙ filled behind)
  where
    tagged : (back : List ℕ) → read_block (b.tag ++ back) ≡ read_length b.tag back
    tagged back = rw (take-append 4 b.tag back fit.0) refl

    sized :
        (behind : List ℕ)
        → read_length b.tag (be32 (length b.content) ++ (b.content ++ behind))
          ≡ read_content b.tag (from_be 0 (be32 (length b.content))) (b.content ++ behind)
    sized behind =
        rw
          (take-append 4 (be32 (length b.content)) (b.content ++ behind)
            (length-be32 (length b.content)))
          refl

    filled :
        (behind : List ℕ)
        → read_content b.tag (from_be 0 (be32 (length b.content))) (b.content ++ behind)
          ≡ ok (b, behind)
    filled behind = rw (take-content b.content behind fit.1) refl

read_blocks-encode_blocks :
    (n : ℕ) (bs : List Block) (more : List ℕ)
    → n ≤ length bs
    → All IsFit bs
    → read_blocks n (encode_blocks bs ++ more)
      ≡ ok (first n bs, encode_blocks (beyond n bs) ++ more)
unfolding read_blocks
read_blocks-encode_blocks zero bs more h fit = refl
read_blocks-encode_blocks (suc n) [] more h fit = absurd (omega arith)
read_blocks-encode_blocks (suc n) (b ∷ bs) more h fit =
    rw (read_block-encode_block b bs more fit.0)
      (rw (read_blocks-encode_blocks n bs more (omega arith) fit.1) refl)

file_shape :
    (f : BlockFile) (more : List ℕ)
    → encode f ++ more
      ≡ magic ++ (format_version ∷ (be16 (length f.blocks) ++ (encode_blocks f.blocks ++ more)))
unfolding encode
file_shape f more = simp append_assoc

mod_le : (n : ℕ) → n % 2 ^ 16 ≤ n
mod_le n = omega arith

read_count-encode :
    (bs : List Block) (more : List ℕ)
    → All IsFit bs
    → let n = length bs % 2 ^ 16 in
      read_count (be16 (length bs) ++ (encode_blocks bs ++ more))
      ≡ ok (first n bs, encode_blocks (beyond n bs) ++ more)
unfolding read_count be16
read_count-encode bs more fit =
    rw (from_be-be16 (length bs))
      (read_blocks-encode_blocks (length bs % 2 ^ 16) bs more (mod_le (length bs)) fit)

pub read_file-encode :
    (f : BlockFile) (more : List ℕ)
    → All IsFit f.blocks
    → let n = length f.blocks % 2 ^ 16 in
      read_file (encode f ++ more)
      ≡ ok (first n f.blocks, encode_blocks (beyond n f.blocks) ++ more)
unfolding read_file read_version read_body take
read_file-encode f more fit = rw (file_shape f more) (read_count-encode f.blocks more fit)

-- A container that was written, whatever bytes stand behind it, is read back up to the number of blocks
-- that the count of 16 bits holds: all of them below 65536 blocks, none of them at 65536. Each block has
-- a tag of four bytes and less than 2^32 bytes of content.
pub decode-encode :
    (f : BlockFile) (more : List ℕ)
    → All IsFit f.blocks
    → decode (encode f ++ more) ≡ ok (record { blocks = first (length f.blocks % 2 ^ 16) f.blocks })
unfolding decode
decode-encode f more fit = rw (read_file-encode f more fit) refl

pub first_all : (bs : List Block) → first (length bs) bs ≡ bs
first_all [] = refl
first_all (b ∷ bs) = ap (◌∷◌ b) (first_all bs)
