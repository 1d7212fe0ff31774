-- ===== src/Server/Flush.antt =====
-- `conn_flush` of net/server.c sends every byte once and in order.
use void_cache.Prelude.{
  ℕ, ◌+◌, ◌≡◌, ◌∙◌, refl, sym, ap, arith, List, [], ◌∷◌, ◌++◌, false, length, take, drop, ltb,
  Bool-cases, inl, inr, drop-drop, drop-past, append_assoc, zero, suc, ◌≢◌,
}
use void_cache.Proto.{Buf, vc_buf_reset}
use void_cache.Server.{
  WriteResult, wrote, write_zero, write_again, write_failed, FlushEnd, flush_end, conn_flush,
}

-- the bytes of a buffer that are still to be sent
abbrev pub unsent : Buf → List ℕ
unsent b = drop b.rpos b.bytes

take-drop {ℓ} : {A : Type ℓ} (n : ℕ) (xs : List A) → take n xs ++ drop (length (take n xs)) xs ≡ xs
take-drop zero [] = refl
take-drop (suc n) [] = refl
take-drop zero (x ∷ xs) = refl
take-drop (suc n) (x ∷ xs) = ap (λ ys. x ∷ ys) (take-drop n xs)

-- What a flush has sent and what it has left are the bytes that were to be sent. When it returns 0
-- nothing is left, and else the bytes of the buffer stay.
abbrev pub Sends : Buf → FlushEnd × Buf × List ℕ → Type 0
Sends b r = (r.2 ++ unsent r.1 ≡ unsent b) × (r.0 ≡ FlushEnd.flushed → unsent r.1 ≡ [])

past_end : (b : Buf) → ltb b.rpos (length b.bytes) ≡ false → unsent b ≡ []
past_end b e = drop-past b.rpos b.bytes (ground arith)

flush_end-Sends : (b : Buf) (e : FlushEnd) → e ≢ FlushEnd.flushed → Sends b (flush_end b e)
unfolding flush_end vc_buf_reset
flush_end-Sends b e more = elim (Bool-cases (ltb b.rpos (length b.bytes))) [
  | inl some_left ↦ rw some_left (refl, λ q. absurd (more q))
  | inr none_left ↦ rw none_left (sym (past_end b none_left), λ q. refl)
]

-- What `conn_flush` has sent and what it has left are the bytes that were to be sent, in order. If
-- it returns 0, nothing is left.
pub conn_flush-Sends : (rs : List WriteResult) (b : Buf) → Sends b (conn_flush rs b)
unfolding conn_flush vc_buf_reset
conn_flush-Sends [] b = flush_end-Sends b FlushEnd.would_block (λ q. cc)
conn_flush-Sends (write_zero ∷ rs) b = flush_end-Sends b FlushEnd.failed (λ q. cc)
conn_flush-Sends (write_again ∷ rs) b = flush_end-Sends b FlushEnd.would_block (λ q. cc)
conn_flush-Sends (write_failed ∷ rs) b = flush_end-Sends b FlushEnd.failed (λ q. cc)
conn_flush-Sends (wrote n ∷ rs) b =
    let sent = take n (unsent b) in
    let b1 = record b { rpos = b.rpos + length sent } in
    let (whole, over) = conn_flush-Sends rs b1 in
    let rest : sent ++ unsent b1 ≡ unsent b =
      ap (λ ys. sent ++ ys) (sym (drop-drop (length sent) b.rpos b.bytes))
      ∙ take-drop n (unsent b) in
    elim (Bool-cases (ltb b.rpos (length b.bytes))) [
      | inl some_left ↦ rw some_left (
        append_assoc sent (conn_flush rs b1).2 (unsent (conn_flush rs b1).1)
            ∙ ap (λ ys. sent ++ ys) whole
            ∙ rest,
        over,
      )
      | inr none_left ↦ rw none_left (sym (past_end b none_left), λ q. refl)
    ]
