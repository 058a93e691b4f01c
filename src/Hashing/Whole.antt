-- ===== src/Hashing/Whole.antt =====
-- Hashing chunk by chunk is hashing the whole (tools/hash_file.py, tools/cut_clip.py).
use realtime_meeting_transla.Prelude.{
  ℕ, zero, suc, ◌≤◌, ◌<◌, ◌≡◌, ap, sym, ◌∙◌, List, [], ◌∷◌, ◌++◌, length, take, drop, Text, arith,
  length-drop, take-append-drop,
}
use realtime_meeting_transla.Hashing.{read_chunk_bytes, update_chunks, sha256_of}

-- `hashlib` promises that updating twice is updating with the bytes of both, and with none is nothing.
module _ {D : Type 0} (fresh : D) (update : D → List ℕ → D) (hexdigest : D → Text)
    (update-nil : (d : D) → update d [] ≡ d)
    (update-append : (d : D) (a b : List ℕ) → update (update d a) b ≡ update d (a ++ b)) where
  update_chunks-whole :
      (fuel size : ℕ) (d : D) (content : List ℕ)
      → 0 < size
      → length content ≤ fuel
      → update_chunks fresh update hexdigest fuel size d content ≡ update d content
  unfolding update_chunks
  update_chunks-whole zero size d [] p h = sym (update-nil d)
  update_chunks-whole zero size d (b ∷ content) p h = absurd (ground arith)
  update_chunks-whole (suc fuel) size d [] p h = sym (update-nil d)
  update_chunks-whole (suc fuel) size d (b ∷ content) p h =
      update_chunks-whole fuel size (update d (take size (b ∷ content))) (drop size (b ∷ content)) p
        (omega (arith, length-drop size (b ∷ content)))
      ∙ update-append d (take size (b ∷ content)) (drop size (b ∷ content))
      ∙ ap (update d) (take-append-drop size (b ∷ content))

  -- Where `update` is as `hashlib` documents it, the chunks end, and what `sha256_of` gives back is
  -- the digest of the whole content, whatever its size.
  pub sha256_of_whole :
      (content : List ℕ)
      → sha256_of fresh update hexdigest content ≡ hexdigest (update fresh content)
  unfolding sha256_of
  sha256_of_whole content = ap hexdigest (
      update_chunks-whole (length content) read_chunk_bytes fresh content (omega arith)
        (omega arith))
