-- ===== src/Content/Block/Prefixes.antt =====
-- A container that is cut short is found to be.
use fipa_wasm.Base.{
  ℕ, zero, suc, ◌%◌, ◌^◌, ◌<◌, ◌≡◌, ◌≢◌, refl, sym, List, [], ◌∷◌, ◌++◌, arith, All, length,
  append-nil, ◌==◌, inl, inr, Bool-cases,
}
use fipa_wasm.Base.Result.{Result, ok, err, ◌>>=◌}
use fipa_wasm.Content.Block.{
  Block, BlockFile, BlockError, bad_magic, version, truncated, take, from_be, encode, same_bytes,
  magic, format_version, encode_blocks, read_content, read_length, read_block, read_blocks,
  read_count, read_body, read_version, read_file, decode,
}
use fipa_wasm.Content.Block.RoundTrip.{IsFit, beyond, first_all, read_file-encode}

module _ (more : List ℕ) where
  -- What more bytes at the end change: only a reading that found too few.
  abbrev Grows {ℓ} :
      {A : Type ℓ} → Result BlockError (A × List ℕ) → Result BlockError (A × List ℕ) → Type ℓ
  Grows (ok (a, rest)) q = q ≡ ok (a, rest ++ more)
  Grows (err bad_magic) q = q ≡ err bad_magic
  Grows (err (version v)) q = q ≡ err (version v)
  Grows (err truncated) q = Unit

  Grows-bind {ℓ κ} :
      {A : Type ℓ} {B : Type κ} (r q : Result BlockError (A × List ℕ))
      (f : A × List ℕ → Result BlockError (B × List ℕ))
      → Grows r q
      → ((a : A) (rest : List ℕ) → Grows (f (a, rest)) (f (a, rest ++ more)))
      → Grows (r >>= f) (q >>= f)
  Grows-bind (ok (a, rest)) q f g k = rw g (k a rest)
  Grows-bind (err bad_magic) q f g k = rw g refl
  Grows-bind (err (version v)) q f g k = rw g refl
  Grows-bind (err truncated) q f g k = tt

  take-Grows : (n : ℕ) (bytes : List ℕ) → Grows (take n bytes) (take n (bytes ++ more))
  unfolding take
  take-Grows zero bytes = refl
  take-Grows (suc n) [] = tt
  take-Grows (suc n) (b ∷ bytes) =
      Grows-bind (take n bytes) _ _ (take-Grows n bytes) (λ front back. refl)

  read_block-Grows : (bytes : List ℕ) → Grows (read_block bytes) (read_block (bytes ++ more))
  unfolding read_block read_length read_content
  read_block-Grows bytes = Grows-bind (take 4 bytes) _ _ (take-Grows 4 bytes) λ tag back.
      Grows-bind (take 4 back) _ _ (take-Grows 4 back) λ len back'.
        Grows-bind (take (from_be 0 len) back') _ _ (take-Grows (from_be 0 len) back')
          λ content rest. refl

  read_blocks-Grows :
      (n : ℕ) (bytes : List ℕ) → Grows (read_blocks n bytes) (read_blocks n (bytes ++ more))
  unfolding read_blocks
  read_blocks-Grows zero bytes = refl
  read_blocks-Grows (suc n) bytes =
      Grows-bind (read_block bytes) _ _ (read_block-Grows bytes) λ block back.
        Grows-bind (read_blocks n back) _ _ (read_blocks-Grows n back) λ blocks rest. refl

  read_body-Grows :
      (v : ℕ) (bytes : List ℕ) → Grows (read_body v bytes) (read_body v (bytes ++ more))
  unfolding read_body read_count
  read_body-Grows v bytes = elim (Bool-cases (v == format_version)) [
    | inl e ↦ rw e (
        Grows-bind (take 2 bytes) _ _ (take-Grows 2 bytes)
          λ count back. read_blocks-Grows (from_be 0 count) back)
    | inr n ↦ rw n refl
  ]

  read_version-Grows :
      (front bytes : List ℕ) → Grows (read_version front bytes) (read_version front (bytes ++ more))
  unfolding read_version
  read_version-Grows front bytes = elim (Bool-cases (same_bytes front magic)) [
    | inl e ↦ rw e (
        Grows-bind (take 1 bytes) _ _ (take-Grows 1 bytes)
          λ v back. read_body-Grows (from_be 0 v) back)
    | inr n ↦ rw n refl
  ]

  read_file-Grows : (bytes : List ℕ) → Grows (read_file bytes) (read_file (bytes ++ more))
  unfolding read_file
  read_file-Grows bytes =
      Grows-bind (take 4 bytes) _ _ (take-Grows 4 bytes) λ front back. read_version-Grows front back

beyond_all : (bs : List Block) → beyond (length bs) bs ≡ []
beyond_all [] = refl
beyond_all (b ∷ bs) = beyond_all bs

read_file_whole :
    (f : BlockFile)
    → All IsFit f.blocks
    → length f.blocks < 2 ^ 16
    → read_file (encode f) ≡ ok (f.blocks, [])
unfolding encode_blocks
read_file_whole f fit h =
    rw
      (
        sym (append-nil (encode f)),
        read_file-encode f [] fit,
        small (length f.blocks) h,
        first_all f.blocks,
        beyond_all f.blocks,
      )
      refl
  where
    small : (n : ℕ) → n < 2 ^ 16 → n % 2 ^ 16 ≡ n
    small n k = omega arith

snoc-ne-nil {ℓ} : {A : Type ℓ} (rest : List A) (x : A) (back : List A) → rest ++ x ∷ back ≢ []
snoc-ne-nil [] x back e = cc
snoc-ne-nil (r ∷ rest) x back e = cc

cut :
    (blocks : List Block) (x : ℕ) (back : List ℕ) (r q : Result BlockError (List Block × List ℕ))
    → Grows (x ∷ back) r q
    → q ≡ ok (blocks, [])
    → r ≡ err truncated
cut blocks x back (ok (a, rest)) q g e = absurd (snoc-ne-nil rest x back (ground (arith, g, e)))
cut blocks x back (err bad_magic) q g e = cc
cut blocks x back (err (version v)) q g e = cc
cut blocks x back (err truncated) q g e = refl

-- Every proper prefix of a container of fewer than 65536 fitting blocks is refused as truncated, and
-- never taken for a container with less in it.
pub decode_truncated :
    (f : BlockFile) (x : ℕ) (front back : List ℕ)
    → All IsFit f.blocks
    → length f.blocks < 2 ^ 16
    → encode f ≡ front ++ x ∷ back
    → decode front ≡ err truncated
unfolding decode
decode_truncated f x front back fit h e =
    let grows = read_file-Grows (x ∷ back) front in
    rw
      (cut f.blocks x back (read_file front) (read_file (front ++ x ∷ back)) grows
        (rw (sym e) (read_file_whole f fit h)))
      refl
