-- ===== src/Block.antt =====
-- The contents of a block: bytes, and the little-endian words that the sources read in them.
pub mod Laws
pub mod Fields
use lkp_project.Prelude.{
  ℕ, ◌+◌, ◌-◌, ◌*◌, ◌/◌, ◌%◌, ◌^◌, ◌≤◌, ◌<◌, Bool, ◌&&◌, ◌==◌, ltb, leb, if◌then◌else◌,
}

-- A cell stands for a byte: it is read modulo 256.
abbrev pub Block : Type 0
Block = ℕ → ℕ

abbrev pub block_size : ℕ
block_size = 4096

abbrev pub within : ℕ → ℕ → ℕ → Bool
within start n j = leb start j && ltb j (start + n)

unfoldable pub get_u32 : Block → ℕ → ℕ
get_u32 b o =
    b o % 256 + 256 * (b (o + 1) % 256) + 65536 * (b (o + 2) % 256) + 16777216 * (b (o + 3) % 256)

unfoldable pub set_u32 : Block → ℕ → ℕ → Block
set_u32 b o v j =
    if j == o
    then v % 256
    else (if j == o + 1
        then v / 256 % 256
        else (if j == o + 2
            then v / 65536 % 256
            else (if j == o + 3 then v / 16777216 % 256 else b j)))

-- memset(b + start, c, n)
unfoldable pub memset : Block → ℕ → ℕ → ℕ → Block
memset b start c n j = if within start n j then c else b j

-- memcpy(b + start, src, n)
unfoldable pub memcpy : Block → ℕ → Block → ℕ → Block
memcpy b start src n j = if within start n j then src (j - start) else b j
