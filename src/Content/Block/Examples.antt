-- ===== src/Content/Block/Examples.antt =====
-- A message of two blocks.
use fipa_wasm.Base.{ℕ, ◌≡◌, refl, List, [], ◌∷◌, ◌++◌, arith, codes}
use fipa_wasm.Base.Result.{ok, err}
use fipa_wasm.Content.Block.{
  BlockFile, truncated, encode, decode, encode_blocks, encode_block, be16, be32,
}
use fipa_wasm.Content.Block.RoundTrip.{decode-encode}
use fipa_wasm.Content.Block.Prefixes.{decode_truncated}

abbrev message : BlockFile
message = record {
  blocks =
      record { tag = codes "UNL "; content = 1 ∷ 2 ∷ [] }
      ∷ record { tag = codes "DATA"; content = [] }
      ∷ [];
}

-- All but the last byte of it.
abbrev front : List ℕ
front =
    codes "FBLK"
    ++ 1 ∷ 0 ∷ 2 ∷ codes "UNL "
    ++ 0 ∷ 0 ∷ 0 ∷ 2 ∷ 1 ∷ 2 ∷ codes "DATA"
    ++ 0 ∷ 0 ∷ 0 ∷ []

decode-encode_example : decode (encode message ++ 7 ∷ 8 ∷ []) ≡ ok message
decode-encode_example =
    decode-encode message (7 ∷ 8 ∷ []) ((refl, omega arith), ((refl, omega arith), tt))

decode_truncated_example : decode front ≡ err truncated
unfolding encode encode_blocks encode_block be16 be32
decode_truncated_example =
    decode_truncated message 0 front [] ((refl, omega arith), ((refl, omega arith), tt))
      (omega arith) refl
