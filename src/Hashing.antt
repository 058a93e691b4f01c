-- ===== src/Hashing.antt =====
-- `sha256_of`, which tools/hash_file.py and tools/cut_clip.py both define: a file read in chunks and
-- hashed as it is read. The hash itself is `hashlib`'s.
mod Tests
pub mod Whole
use realtime_meeting_transla.Prelude.{ℕ, zero, suc, ◌*◌, List, [], ◌∷◌, length, take, drop, Text}

abbrev pub read_chunk_bytes : ℕ
read_chunk_bytes = 1024 * 1024

-- `update` and `hexdigest` are those of the digest that `hashlib.sha256()` makes, `fresh`.
module _ {D : Type 0} (fresh : D) (update : D → List ℕ → D) (hexdigest : D → Text) where
  -- `while chunk := handle.read(READ_CHUNK_BYTES)`, on fuel
  unfoldable pub update_chunks : ℕ → ℕ → D → List ℕ → D
  update_chunks zero size digest content = digest
  update_chunks (suc fuel) size digest [] = digest
  update_chunks (suc fuel) size digest (b ∷ content) =
      update_chunks fuel size (update digest (take size (b ∷ content))) (drop size (b ∷ content))

  -- Each chunk has a byte at least, so the bytes are fuel enough.
  unfoldable pub sha256_of : List ℕ → Text
  unfolding update_chunks
  sha256_of content = hexdigest (update_chunks (length content) read_chunk_bytes fresh content)
