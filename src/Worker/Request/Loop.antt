-- ===== src/Worker/Request/Loop.antt =====
-- The invariants of the loop over the header fields, for the three groups of its variables.
use migux.Common.{
  ℕ, ◌≡◌, refl, sym, ap, ◌∙◌, ◌⊎◌, inl, inr, Bool, true, false, ◌||◌, List, [], ◌∷◌, none, some,
  arith, Bool-cases, Option-cases, All, any,
}
use migux.Text.{Str, lit, same, same→eq, split}
use migux.Headers.Lengths.{Says, add-Says}
use migux.Worker.Request.{Scan, scan_field, scan, scan_host, no_headers}
use migux.Worker.Request.Fields.{
  scan_field-length, scan_field-present, scan_field-Chunked, scan_field-host,
}
use migux.Worker.Request.Groups.{Chunked}

-- Some header has the name.
abbrev pub has_field : Str → List (Str × Str) → Bool
has_field name = any (λ f. same f.0 name)

pub scan-present :
    (fs : List (Str × Str)) (s : Scan)
    → (scan s fs).transfer_encoding_present
      ≡ (has_field (lit "transfer-encoding") fs || s.transfer_encoding_present)
unfolding scan
scan-present [] s = refl
scan-present ((name, value) ∷ fs) s =
    ground (arith, scan-present fs (scan_field s name value), scan_field-present s name value)

pub scan-Chunked : (fs : List (Str × Str)) (s : Scan) → Chunked s → Chunked (scan s fs)
unfolding scan
scan-Chunked [] s c = c
scan-Chunked ((name, value) ∷ fs) s c =
    scan-Chunked fs (scan_field s name value) (scan_field-Chunked s name value c)

-- Each `Content-Length` field is the length `n`.
abbrev pub Lengths : ℕ → List (Str × Str) → Type 0
Lengths n = All (λ f. (same f.0 (lit "content-length") ≡ false) ⊎ Says n (split b',' f.1))

-- After the loop, with a length: every field has said it.
pub scan-Lengths :
    (n : ℕ) (fs : List (Str × Str)) (s : Scan)
    → (scan s fs).content_length.invalid ≡ false
    → (scan s fs).content_length.value ≡ some n
    → Lengths n fs
      × (s.content_length.invalid ≡ false)
      × ((s.content_length.value ≡ none) ⊎ (s.content_length.value ≡ some n))
unfolding scan
scan-Lengths n [] s h v = (tt, h, inr v)
scan-Lengths n ((name, value) ∷ fs) s h v =
    let (rest, h', v') = scan-Lengths n fs (scan_field s name value) h v in
    let step = scan_field-length s name value in
    elim (Bool-cases (same name (lit "content-length"))) [
      | inl c ↦
          let (k, vk, says, valid, val) =
            add-Says s.content_length value (ground (arith, step, c, h')) in
          let kn : k ≡ n = ground (arith, step, c, vk, v') in
          ((inr (rw (sym kn) says), rest), valid, rw (sym kn) val)
      | inr c ↦ ((inl c, rest), ground (arith, step, c, h'), ground (arith, step, c, v'))
    ]

-- After the loop, without a length: no field gave one.
pub scan-none :
    (fs : List (Str × Str)) (s : Scan)
    → (scan s fs).content_length.invalid ≡ false
    → (scan s fs).content_length.value ≡ none
    → (has_field (lit "content-length") fs ≡ false)
      × (s.content_length.invalid ≡ false)
      × (s.content_length.value ≡ none)
unfolding scan
scan-none [] s h v = (refl, h, v)
scan-none ((name, value) ∷ fs) s h v =
    let (rest, h', v') = scan-none fs (scan_field s name value) h v in
    let step = scan_field-length s name value in
    elim (Bool-cases (same name (lit "content-length"))) [
      | inl c ↦
          let (k, vk, _, _, _) = add-Says s.content_length value (ground (arith, step, c, h')) in
          absurd (ground (arith, step, c, vk, v'))
      | inr c ↦ (ground (arith, c, rest), ground (arith, step, c, h'), ground (arith, step, c, v'))
    ]

-- Each `Host` field is `host`.
abbrev pub Hosts : Str → List (Str × Str) → Type 0
Hosts host = All (λ f. (same f.0 (lit "host") ≡ false) ⊎ (f.1 ≡ host))

scan_host-agrees :
    (s : Scan) (value host : Str)
    → (scan_host s value).host_conflict ≡ false
    → ((scan_host s value).host_value ≡ none) ⊎ ((scan_host s value).host_value ≡ some host)
    → (value ≡ host)
      × (s.host_conflict ≡ false)
      × ((s.host_value ≡ none) ⊎ (s.host_value ≡ some host))
unfolding scan_host
scan_host-agrees s value host c v = elim (Option-cases s.host_value) [
  | inl e ↦ (ground (arith, e, c, v), ground (arith, e, c, v), inl e)
  | inr (old, e) ↦
      let agrees : same old value ≡ true = ground (arith, e, c, v) in
      let old_host : old ≡ host = ground (arith, e, c, v, agrees) in
      (
        sym (same→eq old value agrees) ∙ old_host,
        ground (arith, e, c, v, agrees),
        inr (e ∙ ap some old_host),
      )
]

pub scan-Hosts :
    (host : Str) (fs : List (Str × Str)) (s : Scan)
    → (scan s fs).host_conflict ≡ false
    → (scan s fs).host_value ≡ some host
    → Hosts host fs
      × (s.host_conflict ≡ false)
      × ((s.host_value ≡ none) ⊎ (s.host_value ≡ some host))
unfolding scan
scan-Hosts host [] s c v = (tt, c, inr v)
scan-Hosts host ((name, value) ∷ fs) s c v =
    let (rest, c', v') = scan-Hosts host fs (scan_field s name value) c v in
    let step = scan_field-host s name value in
    elim (Bool-cases (same name (lit "host"))) [
      | inl h ↦
          let (same_host, fine, before) =
            scan_host-agrees s value host (ground (arith, step.conflict, h, c'))
              (ground (arith, step.value, h, v')) in
          ((inr same_host, rest), fine, before)
      | inr h ↦
          ((inl h, rest), ground (arith, step.conflict, h, c'), ground (arith, step.value, h, v'))
    ]

pub scan-host :
    (fs : List (Str × Str)) (s : Scan)
    → has_field (lit "host") fs ≡ false
    → (scan s fs).host_value ≡ s.host_value
unfolding scan
scan-host [] s h = refl
scan-host ((name, value) ∷ fs) s h =
    let step = scan_field-host s name value in
    let n : same name (lit "host") ≡ false = ground (arith, h) in
    scan-host fs (scan_field s name value) (ground (arith, h, n)) ∙ ground (arith, step.value, n)

pub scan-host_none :
    (fs : List (Str × Str)) (s : Scan)
    → (scan s fs).host_value ≡ none
    → (has_field (lit "host") fs ≡ false) × (s.host_value ≡ none)
unfolding scan scan_host
scan-host_none [] s h = (refl, h)
scan-host_none ((name, value) ∷ fs) s h =
    let (rest, v) = scan-host_none fs (scan_field s name value) h in
    let step = scan_field-host s name value in
    elim (Bool-cases (same name (lit "host"))) [
      | inl k ↦ absurd (ground (arith, step.value, k, v))
      | inr k ↦ (ground (arith, k, rest), ground (arith, step.value, k, v))
    ]

pub scan-no_length :
    (fs : List (Str × Str)) (s : Scan)
    → has_field (lit "content-length") fs ≡ false
    → (scan s fs).content_length ≡ s.content_length
unfolding scan
scan-no_length [] s h = refl
scan-no_length ((name, value) ∷ fs) s h =
    let n : same name (lit "content-length") ≡ false = ground (arith, h) in
    scan-no_length fs (scan_field s name value) (ground (arith, h, n))
    ∙ ground (arith, scan_field-length s name value, n)

pub Lengths-none :
    (n : ℕ) (fs : List (Str × Str)) → has_field (lit "content-length") fs ≡ false → Lengths n fs
Lengths-none n [] h = tt
Lengths-none n ((name, value) ∷ fs) h =
    (inl (ground (arith, h)), Lengths-none n fs (ground (arith, h)))

pub no_headers-Chunked : Chunked no_headers
no_headers-Chunked = record {
  last_sets = λ e. ground (arith, e);
  needs_field = λ e. ground (arith, e);
}
