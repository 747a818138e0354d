-- ===== src/Proxy/Response/Lengths.antt =====
-- The length by which a response is framed.
use migux.Common.{
  ℕ, ◌≡◌, refl, sym, ◌∙◌, ◌⊎◌, inl, inr, false, List, [], ◌∷◌, Option, none, some, if◌then◌else◌,
  arith, Bool-cases, Option-cases, subst,
}
use migux.Text.{Str, lit, same, lines}
use migux.Headers.{ContentLengthState, no_length, add}
use migux.Headers.Lengths.{add-Says}
use migux.Worker.Request.Loop.{has_field, Lengths}
use migux.Proxy.Response.{
  ResponseInfo, field_info, fields_info, finish_info, response_fields, parse_response_headers,
  status_line_info,
}

-- The length that the headers of a response agree on, if they give one.
abbrev pub Agreed : Option ℕ → List (Str × Str) → Type 0
Agreed none fs = has_field (lit "content-length") fs ≡ false
Agreed (some n) fs = Lengths n fs

field_info-length :
    (acc : ContentLengthState × ResponseInfo) (name value : Str)
    → (field_info acc name value).0
      ≡ (if same name (lit "content-length") then add acc.0 value else acc.0)
unfolding field_info
field_info-length (state, info) name value = ground arith

fields_info-some :
    (n : ℕ) (fs : List (Str × Str)) (acc : ContentLengthState × ResponseInfo)
    → (fields_info acc fs).0.invalid ≡ false
    → (fields_info acc fs).0.value ≡ some n
    → Lengths n fs × (acc.0.invalid ≡ false) × ((acc.0.value ≡ none) ⊎ (acc.0.value ≡ some n))
unfolding fields_info
fields_info-some n [] acc h v = (tt, h, inr v)
fields_info-some n ((name, value) ∷ fs) acc h v =
    let (rest, h', v') = fields_info-some n fs (field_info acc name value) h v in
    let step = field_info-length acc name value in
    elim (Bool-cases (same name (lit "content-length"))) [
      | inl c ↦
          let (k, vk, says, fine, val) = add-Says acc.0 value (ground (arith, step, c, h')) in
          let kn : k ≡ n = ground (arith, step, c, vk, v') in
          ((inr (rw (sym kn) says), rest), fine, rw (sym kn) val)
      | inr c ↦ ((inl c, rest), ground (arith, step, c, h'), ground (arith, step, c, v'))
    ]

fields_info-none :
    (fs : List (Str × Str)) (acc : ContentLengthState × ResponseInfo)
    → (fields_info acc fs).0.invalid ≡ false
    → (fields_info acc fs).0.value ≡ none
    → (has_field (lit "content-length") fs ≡ false) × (acc.0.invalid ≡ false) × (acc.0.value ≡ none)
unfolding fields_info
fields_info-none [] acc h v = (refl, h, v)
fields_info-none ((name, value) ∷ fs) acc h v =
    let (rest, h', v') = fields_info-none fs (field_info acc name value) h v in
    let step = field_info-length acc name value in
    elim (Bool-cases (same name (lit "content-length"))) [
      | inl c ↦
          let (k, vk, _, _, _) = add-Says acc.0 value (ground (arith, step, c, h')) in
          absurd (ground (arith, step, c, vk, v'))
      | inr c ↦ (ground (arith, c, rest), ground (arith, step, c, h'), ground (arith, step, c, v'))
    ]

-- A response whose headers are accepted has the length that each part of each of its `Content-Length`
-- headers gives, where the part is not empty; a response without a length has no such header.
pub parse_response_headers-Agreed :
    (header_str : Str) (info : ResponseInfo)
    → parse_response_headers header_str ≡ some info
    → Agreed info.content_length (response_fields header_str)
unfolding parse_response_headers finish_info
parse_response_headers-Agreed header_str info h =
    let fs = response_fields header_str in
    let (state, out) = fields_info (no_length, status_line_info (lines header_str)) fs in
    let valid : state.invalid ≡ false = ground (arith, h) in
    let length : info.content_length ≡ state.value = ground (arith, h, valid) in
    elim (Option-cases state.value) [
      | inl e ↦
          subst (λ o. Agreed o fs) (sym (length ∙ e))
            (fields_info-none fs (no_length, status_line_info (lines header_str)) valid e).0
      | inr (n, e) ↦
          subst (λ o. Agreed o fs) (sym (length ∙ e))
            (fields_info-some n fs (no_length, status_line_info (lines header_str)) valid e).0
    ]
