-- ===== src/Judge/Bodies.antt =====
-- How much of a response `boundedBody` of src/judge.ts keeps.
use agentmixer.Prelude.{
  ℕ, ◌+◌, ◌≤◌, String, ◌≡◌, arith, List, [], ◌∷◌, ◌++◌, length, length-append, leb, Bool-cases, inl,
  inr, false, if◌then◌else◌,
}
use agentmixer.Prelude.Result.{Result, ok, err, ◌>>=◌}
use agentmixer.Judge.Answers.{max_response_bytes}
use agentmixer.Judge.Backend.{read_chunks, bounded_body, stream}

-- all bytes of a stream
unfoldable pub joined : List (List ℕ) → List ℕ
joined [] = []
joined (chunk ∷ chunks) = chunk ++ joined chunks

abbrev limited : ℕ → List ℕ → Result (List ℕ)
limited size bytes =
    if leb (size + length bytes) max_response_bytes then ok bytes else err "JUDGE_RESPONSE_LIMIT"

extended :
    (size : ℕ) (chunk bytes : List ℕ)
    → (limited (size + length chunk) bytes >>= λ rest. ok (chunk ++ rest))
      ≡ limited size (chunk ++ bytes)
extended size chunk bytes = ground (arith, length-append chunk bytes)

too_long :
    (size : ℕ) (chunk bytes : List ℕ)
    → leb (size + length chunk) max_response_bytes ≡ false
    → err "JUDGE_RESPONSE_LIMIT" ≡ limited size (chunk ++ bytes)
too_long size chunk bytes e = ground (arith, length-append chunk bytes)

read_chunks_lem :
    (size : ℕ) (chunks : List (List ℕ))
    → size ≤ max_response_bytes
    → read_chunks size chunks ≡ limited size (joined chunks)
unfolding read_chunks joined
read_chunks_lem size [] bound = ground arith
read_chunks_lem size (chunk ∷ chunks) bound =
    elim (Bool-cases (leb (size + length chunk) max_response_bytes)) [
      | inl e ↦ rw e (
          rw (read_chunks_lem (size + length chunk) chunks (ground arith))
            (extended size chunk (joined chunks)))
      | inr e ↦ rw e (too_long size chunk (joined chunks) e)
    ]

module _ (decode : List ℕ → String) where
  decoded_limited :
      (bytes : List ℕ)
      → (limited 0 bytes >>= λ b. ok (decode b)) ≡ (
          if leb (length bytes) max_response_bytes
          then ok (decode bytes)
          else err "JUDGE_RESPONSE_LIMIT")
  decoded_limited bytes = ground arith

  -- The body of a stream is the text of all its bytes if there are at most 256 KiB of them, however
  -- they are cut into chunks, and an error if there are more.
  pub bounded_body-stream :
      (chunks : List (List ℕ))
      → bounded_body decode (stream chunks) ≡ (
          if leb (length (joined chunks)) max_response_bytes
          then ok (decode (joined chunks))
          else err "JUDGE_RESPONSE_LIMIT")
  unfolding bounded_body
  bounded_body-stream chunks =
      rw (read_chunks_lem 0 chunks (omega arith)) (decoded_limited (joined chunks))
