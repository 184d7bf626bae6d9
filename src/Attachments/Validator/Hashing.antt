-- ===== src/Attachments/Validator/Hashing.antt =====
-- The loop that reads an upload in chunks.
use realynk.Base.{
  ℕ, zero, suc, ◌≤◌, ◌<◌, ◌≡◌, ◌∙◌, refl, ap, sym, some, [], ◌∷◌, ◌++◌, Text, arith, length,
}
use realynk.Attachments.Filenames.{first}
use realynk.Attachments.Validator.{Hash, behind, digest_chunks, checksum, chunk_size, digest_of}

-- Feeding two texts one after the other is feeding them together, as hashlib documents.
pub record IsStreaming (H : Hash) : Type 0 where
  pub update-append : (h : H.State) (a b : Text) → H.update (H.update h a) b ≡ H.update h (a ++ b)
  pub update-nil : (h : H.State) → H.update h [] ≡ h

first-append-behind : (n : ℕ) (s : Text) → first n s ++ behind n s ≡ s
first-append-behind zero s = refl
first-append-behind (suc n) [] = refl
first-append-behind (suc n) (c ∷ s) = ap (λ t. c ∷ t) (first-append-behind n s)

length-behind-le : (n : ℕ) (s : Text) → length (behind n s) ≤ length s
length-behind-le zero s = omega arith
length-behind-le (suc n) [] = omega arith
length-behind-le (suc n) (c ∷ s) = omega (arith, length-behind-le n s)

module _ (H : Hash) (streaming : IsStreaming H) (size : ℕ) where
  -- The loop ends, within one round for each byte and one more, and the hash is then that of all
  -- that the stream holds, whatever the positive size of a chunk.
  pub digest_chunks_lem :
      (fuel : ℕ) (h : H.State) (s : Text)
      → length s < fuel
      → digest_chunks H fuel (suc size) h s ≡ some (H.update h s)
  unfolding digest_chunks
  digest_chunks_lem zero h s enough = absurd (omega arith)
  digest_chunks_lem (suc fuel) h [] enough = ap some (sym (streaming.update-nil h))
  digest_chunks_lem (suc fuel) h (c ∷ s) enough =
      digest_chunks_lem fuel (H.update h (c ∷ first size s)) (behind size s)
        (omega (arith, length-behind-le size s))
      ∙ ap some (
          streaming.update-append h (c ∷ first size s) (behind size s)
          ∙ ap (λ t. H.update h (c ∷ t)) (first-append-behind size s))

chunk_size_pos : 0 < chunk_size
unfolding chunk_size
chunk_size_pos = omega arith

digest_chunks_pos :
    (H : Hash) (size : ℕ) (s : Text)
    → IsStreaming H
    → 0 < size
    → digest_chunks H (suc (length s)) size H.start s ≡ some (H.update H.start s)
digest_chunks_pos H zero s streaming pos = absurd (omega arith)
digest_chunks_pos H (suc n) s streaming pos =
    digest_chunks_lem H streaming n (suc (length s)) H.start s (omega arith)

-- Where hashlib takes its input in parts as it takes it whole: the loop over the chunks of an upload
-- ends, and its checksum is the digest of the whole file.
pub checksum_lem :
    (H : Hash) (s : Text) → IsStreaming H → checksum H s ≡ H.hexdigest (H.update H.start s)
unfolding checksum
checksum_lem H s streaming =
    ap (digest_of H) (digest_chunks_pos H chunk_size s streaming chunk_size_pos)
