-- ===== src/Proxy/Relay/Chunked.antt =====
-- A body in chunks is relayed byte for byte, by any two functions that read lines and relay bytes.
use mathlib.Core.List.{append_assoc}
use migux.Common.{
  ℕ, zero, suc, ◌+◌, ◌^◌, ◌%◌, ◌≤◌, ◌<◌, ◌≡◌, refl, ap, ◌∙◌, ◌⊎◌, false, [], ◌∷◌, ◌++◌, length,
  length-append, arith, ltb, ◌==◌, ◌&&◌, if◌then◌else◌,
}
use migux.Text.{Str, contains_char, same, same_self}
use migux.Stream.{Result, done, Run, Failure, crlf, ◌>>=◌, ◌>>◌}
use migux.Stream.Steps.{>>=-done}
use migux.Stream.Incoming.{incoming}
use migux.Stream.Chunks.{Trailers, no_more, field, Chunks, last, chunk}
use migux.Proxy.Relay.{Relay, relay_trailers, relay_chunks, relay_sized, forward, chunk_size}
use migux.Proxy.Relay.Lines.{
  after_write, after_write-append, forward_lem, ReadsLines, RelaysExactly,
}

-- The bytes have been taken from the one peer and written to the other, and `rest` is left.
abbrev pub Relayed : Relay → Str → Str → Relay × Result Failure (Unit {0}) → Type 0
Relayed r bytes rest p =
    (p.1 ≡ done tt) × (incoming p.0.source ≡ rest) × (p.0.target ≡ after_write r.target bytes)

no_cr : contains_char 13 [] ≡ false
unfolding contains_char
no_cr = refl

not_last :
    (b : ℕ) (line : Str)
    → contains_char 13 (b ∷ line) ≡ false
    → same ((b ∷ line) ++ crlf) crlf ≡ false
unfolding same contains_char
not_last b line h = ground arith

sum_fits : (a b : ℕ) → a + b + 2 < 2 ^ 64 → (a + b) % 2 ^ 64 ≡ a + b
sum_fits a b h = omega arith

size_fits : (n : ℕ) → n + 2 < 2 ^ 64 → (n + 2) % 2 ^ 64 ≡ n + 2
size_fits n h = omega arith

positive : (n : ℕ) → 0 < n → (n == 0) ≡ false
positive n h = ground arith

in_limit :
    (max_body total more : ℕ)
    → (max_body ≡ 0) ⊎ (total + more ≤ max_body)
    → (ltb 0 max_body && ltb max_body total) ≡ false
in_limit max_body total more h = ground arith

module _ (line : Run Relay Failure Str) (exact : ℕ → Run Relay Failure (Unit {0}))
    (reads : ReadsLines line) (relays : RelaysExactly exact) where
  -- A line is read and written: the two steps at the head of both loops.
  line_forward :
      {B : Type 0} (k : Str → Run Relay Failure B) (r : Relay) (l t : Str)
      → contains_char 13 l ≡ false
      → incoming r.source ≡ l ++ crlf ++ t
      → length (l ++ crlf) ≤ r.target.room
      → (r' : Relay) × ((line >>= λ s. forward s >> k s) r ≡ k (l ++ crlf) r')
        × (incoming r'.source ≡ t)
        × (r'.target ≡ after_write r.target (l ++ crlf))
  line_forward k r l t h e room =
      let (got, rest, same_target) = reads r l t h e in
      let r1 = (line r).0 in
      let wrote = forward_lem (l ++ crlf) r1 (omega (arith, ap (λ s. s.room) same_target)) in
      let r2 : Relay = record r1 { target = after_write r1.target (l ++ crlf) } in
      (
        r2,
        >>=-done line (λ s. forward s >> k s) r got
            ∙ >>=-done (forward (l ++ crlf)) (λ _. k (l ++ crlf)) r1 (ap (λ p. p.1) wrote)
            ∙ ap (λ p. k (l ++ crlf) p.0) wrote,
        rest,
        ap (λ s. after_write s (l ++ crlf)) same_target,
      )

  relay_trailers_lem :
      (fuel : ℕ) (r : Relay) (rest : Str) {ts : Str}
      → Trailers ts
      → length ts < fuel
      → length ts ≤ r.target.room
      → incoming r.source ≡ ts ++ rest
      → Relayed r ts rest (relay_trailers line exact fuel r)
  unfolding relay_trailers
  relay_trailers_lem zero r rest t h room e = absurd (omega arith)
  relay_trailers_lem (suc fuel) r rest no_more h room e =
      let (r', k, i, s) =
        line_forward
          (λ l. if same l crlf then (λ r. (r, done tt)) else relay_trailers line exact fuel) r []
          rest no_cr e room in
      rw k (ground (arith, same_self crlf, i, s))
  relay_trailers_lem (suc fuel) r rest (field b l more n t) h room e =
      let first = (b ∷ l) ++ crlf in
      let sizes = length-append first more in
      let (r', k, i, s) =
        line_forward
          (λ l. if same l crlf then (λ r. (r, done tt)) else relay_trailers line exact fuel) r
          (b ∷ l) (more ++ rest) n (e ∙ append_assoc first more rest) (omega (arith, sizes)) in
      let (r1, i1, s1) =
        relay_trailers_lem fuel r' rest t (omega (arith, sizes))
          (omega (arith, sizes, ap (λ s. s.room) s)) i in
      rw (k, not_last b l n)
        (r1, i1, s1 ∙ ap (λ q. after_write q more) s ∙ after_write-append r.target first more)

  -- What a round does with its line.
  round : (Str → Str) → ℕ → ℕ → ℕ → Str → Run Relay Failure (Unit {0})
  round decode max_body fuel body_bytes =
      relay_sized line exact decode max_body fuel body_bytes
        (λ total. relay_chunks line exact decode max_body fuel total)

  pub relay_chunks_lem :
      (decode : Str → Str) (max_body fuel body_bytes : ℕ) (r : Relay) (rest : Str) {m : ℕ}
      {body : Str}
      → Chunks (chunk_size decode) m body
      → length body < fuel
      → (max_body ≡ 0) ⊎ (body_bytes + m ≤ max_body)
      → body_bytes + m + 2 < 2 ^ 64
      → length body ≤ r.target.room
      → incoming r.source ≡ body ++ rest
      → Relayed r body rest (relay_chunks line exact decode max_body fuel body_bytes r)
  unfolding relay_chunks relay_sized round
  relay_chunks_lem decode max_body zero body_bytes r rest chunks h limit small room e =
      absurd (omega arith)
  relay_chunks_lem decode max_body (suc fuel) body_bytes r rest (last l ts n z t) h limit small room
        e =
      let first = l ++ crlf in
      let sizes = length-append first ts in
      let (r', k, i, s) =
        line_forward (round decode max_body fuel body_bytes) r l (ts ++ rest) n
          (e ∙ append_assoc first ts rest) (omega (arith, sizes)) in
      let (r1, i1, s1) =
        relay_trailers_lem fuel r' rest t (omega (arith, sizes, length-append l crlf))
          (omega (arith, sizes, ap (λ s. s.room) s)) i in
      rw (k, round, relay_sized, z)
        (r1, i1, s1 ∙ ap (λ q. after_write q ts) s ∙ after_write-append r.target first ts)
  relay_chunks_lem decode max_body (suc fuel) body_bytes r rest
        (chunk c m l content more n z pos len t) h limit small room e =
      let first = l ++ crlf in
      let sizes = length-append first (content ++ more) in
      let sizes' = length-append content more in
      let (r', k, i, s) =
        line_forward (round decode max_body fuel body_bytes) r l (content ++ more ++ rest) n
          (e ∙ append_assoc first (content ++ more) rest) (omega (arith, sizes)) in
      let (r1, i1, s1) =
        relays r' (c + 2) content (more ++ rest) len
          (omega (arith, sizes, sizes', ap (λ s. s.room) s)) (i ∙ append_assoc content more rest) in
      let r2 = (exact (c + 2) r').0 in
      let (r3, i3, s3) =
        relay_chunks_lem decode max_body fuel (body_bytes + c) r2 rest t
          (omega (arith, sizes, sizes', length-append l crlf)) (ground arith) (omega arith)
          (omega (arith, sizes, sizes', ap (λ s. s.room) s, ap (λ s. s.room) s1)) i1 in
      rw
        (
          k,
          round,
          relay_sized,
          z,
          sum_fits body_bytes c (omega arith),
          positive c pos,
          in_limit max_body (body_bytes + c) m (ground arith),
          size_fits c (omega arith),
          >>=-done (exact (c + 2)) _ r' r1,
        )
        (
          r3,
          i3,
          s3
              ∙ ap (λ q. after_write q more) s1
              ∙ after_write-append r'.target content more
              ∙ ap (λ q. after_write q (content ++ more)) s
              ∙ after_write-append r.target first (content ++ more),
        )
