-- ===== src/Content/Block.antt =====
-- The typed-block container of crates/fipa-wasm-agents/src/content/block.rs, in which an agent's bundle
-- and the content of a message travel. A byte is a number, a tag is a list of four bytes.
pub mod RoundTrip
pub mod Prefixes
mod Examples
use fipa_wasm.Base.{
  ℕ, zero, suc, ◌*◌, ◌+◌, ◌/◌, ◌%◌, ◌^◌, List, [], ◌∷◌, ◌++◌, Option, none, some, Bool, true, false,
  ◌==◌, ◌&&◌, not, codes, length, if◌then◌else◌, any,
}
use fipa_wasm.Base.Result.{Result, ok, err, ◌>>=◌}

abbrev pub Tag : Type 0
Tag = List ℕ

abbrev tag_wasm : Tag
tag_wasm = codes "WASM"

abbrev tag_header : Tag
tag_header = codes "HEAD"

abbrev tag_llm : Tag
tag_llm = codes "LLM "

abbrev tag_unl : Tag
tag_unl = codes "UNL "

abbrev tag_data : Tag
tag_data = codes "DATA"

abbrev tag_string : Tag
tag_string = codes "STR "

abbrev magic : List ℕ
magic = codes "FBLK"

abbrev format_version : ℕ
format_version = 1

pub record Block : Type 0 where
  pub tag : Tag
  pub content : List ℕ

pub record BlockFile : Type 0 where
  pub blocks : List Block

pub data BlockError : Type 0 where
  bad_magic : BlockError
  version : ℕ → BlockError
  truncated : BlockError

abbrev new : BlockFile
new = record { blocks = [] }

abbrev with_block : Tag → List ℕ → BlockFile → BlockFile
with_block tag content f = record {
  blocks = f.blocks ++ record { tag = tag; content = content } ∷ [];
}

-- `==` on byte strings, and `starts_with`.
abbrev pub same_bytes : List ℕ → List ℕ → Bool
same_bytes [] [] = true
same_bytes (a ∷ as_) (b ∷ bs) = a == b && same_bytes as_ bs
same_bytes _ _ = false

abbrev pub begins_with : List ℕ → List ℕ → Bool
begins_with [] bytes = true
begins_with (a ∷ as_) [] = false
begins_with (a ∷ as_) (b ∷ bs) = a == b && begins_with as_ bs

abbrev find_tag : Tag → List Block → Option (List ℕ)
find_tag tag [] = none
find_tag tag (b ∷ bs) = if same_bytes b.tag tag then some b.content else find_tag tag bs

abbrev get : Tag → BlockFile → Option (List ℕ)
get tag f = find_tag tag f.blocks

abbrev has : Tag → BlockFile → Bool
has tag f = any (λ (b : Block). same_bytes b.tag tag) f.blocks

-- `to_be_bytes` of a `u16` and of a `u32`, after the cast that cuts a length to them.
be16 : ℕ → List ℕ
be16 n = n / 256 % 256 ∷ n % 256 ∷ []

be32 : ℕ → List ℕ
be32 n = n / 256 ^ 3 % 256 ∷ n / 256 ^ 2 % 256 ∷ n / 256 % 256 ∷ n % 256 ∷ []

-- `from_be_bytes`
abbrev from_be : ℕ → List ℕ → ℕ
from_be acc [] = acc
from_be acc (b ∷ bs) = from_be (acc * 256 + b) bs

encode_block : Block → List ℕ
encode_block b = b.tag ++ be32 (length b.content) ++ b.content

pub encode_blocks : List Block → List ℕ
unfolding encode_block
encode_blocks [] = []
encode_blocks (b ∷ bs) = encode_block b ++ encode_blocks bs

pub encode : BlockFile → List ℕ
unfolding encode_blocks
encode f = magic ++ format_version ∷ be16 (length f.blocks) ++ encode_blocks f.blocks

-- The closure `take`: the next `n` bytes, and those behind them. An end past `usize` is past the bytes.
take : ℕ → List ℕ → Result BlockError (List ℕ × List ℕ)
take zero bytes = ok ([], bytes)
take (suc n) [] = err truncated
take (suc n) (b ∷ bytes) = do (front, back) ← take n bytes; ok (b ∷ front, back)

-- One round of the loop, from its end: the content, the length, the tag.
read_content : Tag → ℕ → List ℕ → Result BlockError (Block × List ℕ)
unfolding take
read_content tag len bytes = do
  (content, back) ← take len bytes
  ok (record { tag = tag; content = content }, back)

read_length : Tag → List ℕ → Result BlockError (Block × List ℕ)
unfolding take read_content
read_length tag bytes = do (len, back) ← take 4 bytes; read_content tag (from_be 0 len) back

read_block : List ℕ → Result BlockError (Block × List ℕ)
unfolding take read_length
read_block bytes = do (tag, back) ← take 4 bytes; read_length tag back

-- The loop over the blocks, by their number.
read_blocks : ℕ → List ℕ → Result BlockError (List Block × List ℕ)
unfolding read_block
read_blocks zero bytes = ok ([], bytes)
read_blocks (suc n) bytes = do
  (block, bytes₁) ← read_block bytes
  (blocks, bytes₂) ← read_blocks n bytes₁
  ok (block ∷ blocks, bytes₂)

-- After the version and the magic, by what was read.
read_count : List ℕ → Result BlockError (List Block × List ℕ)
unfolding take read_blocks
read_count bytes = do (count, bytes₁) ← take 2 bytes; read_blocks (from_be 0 count) bytes₁

read_body : ℕ → List ℕ → Result BlockError (List Block × List ℕ)
unfolding read_count
read_body v bytes = if v == format_version then read_count bytes else err (version v)

read_version : List ℕ → List ℕ → Result BlockError (List Block × List ℕ)
unfolding take read_body
read_version front bytes =
    if same_bytes front magic
    then take 1 bytes >>= (λ (r : List ℕ × List ℕ). read_body (from_be 0 r.0) r.1)
    else err bad_magic

pub read_file : List ℕ → Result BlockError (List Block × List ℕ)
unfolding take read_version
read_file bytes = do (front, bytes₁) ← take 4 bytes; read_version front bytes₁

-- What stands behind the last block is not read.
pub decode : List ℕ → Result BlockError BlockFile
unfolding read_file
decode bytes = do (blocks, rest) ← read_file bytes; ok (record { blocks = blocks })

abbrev is_block_container : List ℕ → Bool
is_block_container bytes = begins_with magic bytes
