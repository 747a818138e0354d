-- ===== src/Proxy/Upstream/Order.antt =====
-- The index loop of crates/migux_proxy/src/proxy/upstream.rs is a rotation.
use migux.Common.{
  ℕ, suc, ◌+◌, ◌%◌, ◌<◌, ◌≡◌, refl, sym, ap, ◌∙◌, List, [], ◌∷◌, ◌++◌, Option, none, some, length,
  length-append, get_elem?, take, drop, take-append-drop, length-take, length-drop, arith,
}
use mathlib.Core.Option
use mathlib.Core.List.{append-nil, append_assoc}
use native.Mathlib.Nat.{mod-eq_of_lt, add-mod_left}
use migux.Text.{Str, str_eq}
use migux.Proxy.Upstream.{rotate_from, rotated}

get_elem?-middle :
    (done : List Str) (x : Str) (rest : List Str)
    → get_elem? (done ++ x ∷ rest) (length done) ≡ some x
get_elem?-middle [] x rest = refl
get_elem?-middle (d ∷ done) x rest = get_elem?-middle done x rest

map_nil : (o : Option (List Str)) → Option.map (◌++◌ []) o ≡ o
map_nil none = refl
map_nil (some r) = refl

map_cons :
    (x : Str) (xs : List Str) (o : Option (List Str))
    → Option.map (λ r. x ∷ r) (Option.map (◌++◌ xs) o) ≡ Option.map (◌++◌ (x ∷ xs)) o
map_cons x xs none = refl
map_cons x xs (some r) = refl

-- From a position that stands for the end of `done` the loop reads `todo` off, and goes on.
module _ (servers : List Str) (start base : ℕ)
    (wraps : (l : ℕ) → l < length servers → (base + l) % length servers ≡ l) where
  one_round :
      (x : Str) (i left : ℕ)
      → get_elem? servers ((start + i) % length servers) ≡ some x
      → rotate_from servers start i (suc left)
        ≡ Option.map (λ r. x ∷ r) (rotate_from servers start (suc i) left)
  unfolding rotate_from
  one_round x i left here = rw (here, rotate_from) refl

  walk :
      (done todo rest : List Str) (i left : ℕ)
      → servers ≡ done ++ (todo ++ rest)
      → start + i ≡ base + length done
      → rotate_from servers start i (length todo + left)
        ≡ Option.map (◌++◌ todo) (rotate_from servers start (i + length todo) left)
  unfolding rotate_from
  walk done [] rest i left e h =
      ap (rotate_from servers start i) (omega arith)
      ∙ ap (λ j. rotate_from servers start j left) (omega arith)
      ∙ sym (map_nil (rotate_from servers start (i + 0) left))
  walk done (x ∷ todo) rest i left e h =
      let inside : length done < length servers =
        omega (arith, ap length e, length-append done (x ∷ (todo ++ rest))) in
      let here : get_elem? servers ((start + i) % length servers) ≡ some x =
        ap (get_elem? servers) (ap (λ t. t % length servers) h ∙ wraps (length done) inside)
        ∙ ap (λ s. get_elem? s (length done)) e
        ∙ get_elem?-middle done x (todo ++ rest) in
      let next =
        walk (done ++ x ∷ []) todo rest (suc i) left
          (e ∙ sym (append_assoc done (x ∷ []) (todo ++ rest)))
          (omega (arith, length-append done (x ∷ []), h)) in
      ap (rotate_from servers start i) {y = suc (length todo + left)} (omega arith)
      ∙ one_round x i (length todo + left) here
      ∙ ap (Option.map (λ r. x ∷ r)) next
      ∙ map_cons x todo (rotate_from servers start (suc i + length todo) left)
      ∙ ap (λ j. Option.map (◌++◌ (x ∷ todo)) (rotate_from servers start j left)) (omega arith)

-- The order that starts at `start`.
abbrev pub from : ℕ → List Str → List Str
from start servers = drop start servers ++ take start servers

pub rotated_lem :
    (servers : List Str) (start : ℕ)
    → start < length servers
    → rotated servers start ≡ some (from start servers)
unfolding rotated rotate_from
rotated_lem servers start h =
    let n = length servers in
    let split = take-append-drop start servers in
    let head_len = length-take start servers (omega arith) in
    let tail_len = length-drop start servers in
    let first =
      walk servers start 0 (λ l p. ap (λ t. t % n) (omega arith) ∙ mod-eq_of_lt p)
        (take start servers) (drop start servers) [] 0 start
        (sym split ∙ ap (◌++◌ (take start servers)) (sym (append-nil (drop start servers))))
        (omega (arith, head_len)) in
    let second : rotate_from servers start (0 + length (drop start servers))
          (length (take start servers) + 0)
        ≡ Option.map (◌++◌ (take start servers)) (
            rotate_from servers start
              (0 + length (drop start servers) + length (take start servers)) 0) =
      walk servers start n (λ l p. wrap n l p) [] (take start servers) (drop start servers)
        (0 + length (drop start servers)) 0 (sym split) (omega (arith, tail_len)) in
    ap (rotate_from servers start 0) (omega (arith, tail_len))
    ∙ first
    ∙ ap
        (λ k.
          Option.map (◌++◌ (drop start servers))
            (rotate_from servers start (0 + length (drop start servers)) k))
        {y = length (take start servers) + 0} (omega (arith, head_len))
    ∙ ap (Option.map (◌++◌ (drop start servers))) second
    ∙ ap (λ r. some (drop start servers ++ r)) (append-nil (take start servers))
  where
    wrap : (n l : ℕ) → l < n → (n + l) % n ≡ l
    wrap n l p = add-mod_left n l ∙ mod-eq_of_lt p
